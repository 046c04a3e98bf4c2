-- ===== src/Limits/Holders.antt =====
-- The limiter against what it stands for: who holds a slot. A request acquires, works, and
-- releases in a `finally`; requests of all uploads interleave in any order.
use distributed_file_service.Prelude.{
  List, Option, [], ap, arith, if◌then◌else◌, max, min, none, refl, some, ℕ, ◌+◌, ◌-◌, ◌<◌, ◌==◌,
  ◌∙◌, ◌∷◌, ◌≡◌, ◌≢◌, ◌≤◌,
}
use distributed_file_service.Text.{Text, text_eq, text_eq_iff, text_eq_refl}
use distributed_file_service.Exec.{Error, ok, raised}
use distributed_file_service.Dict.{get_or, lookup, lookup-insert, lookup-remove}
use distributed_file_service.Limits.{Limiter, acquire, current, init, release}

-- The most that one upload can hold.
abbrev pub cap : Limiter → ℕ
cap l = elim l.fair_share_limit [
  | none ↦ l.limit
  | some fair ↦ if fair == 0 then l.limit else min l.limit fair
]

-- `holders` lists the upload of each request between its acquire and its release.
pub record System : Type 0 where
  pub limiter : Limiter
  pub holders : List Text

-- The requests of an upload among the holders.
unfoldable pub held : Text → List Text → ℕ
held u [] = 0
held u (v ∷ vs) = (if text_eq v u then 1 else 0) + held u vs

-- One holder fewer: the first one of the upload.
unfoldable pub leave : Text → List Text → List Text
leave u [] = []
leave u (v ∷ vs) = let rest = leave u vs in if text_eq v u then vs else v ∷ rest

pub data Step : System → System → Type 0 where
  enters :
      (s : System) (u : Text)
      → (acquire u s.limiter).0 ≡ ok tt
      → Step s (record { limiter = (acquire u s.limiter).1; holders = u ∷ s.holders })
  refused :
      (s : System) (u : Text) (e : Error)
      → (acquire u s.limiter).0 ≡ raised e
      → Step s (record s { limiter = (acquire u s.limiter).1 })
  leaves :
      (s : System) (u : Text)
      → 0 < held u s.holders
      → Step s (record { limiter = release u s.limiter; holders = leave u s.holders })

pub data Reach (s : System) : System → Type 0 where
  here : Reach s s
  next : {t u : System} → Reach s t → Step t u → Reach s u

pub record IsExact (s : System) : Type 0 where
  pub exact : (u : Text) → current s.limiter u ≡ held u s.holders
  pub bounded : (u : Text) → current s.limiter u ≤ cap s.limiter
  pub no_zero : (u : Text) → lookup u s.limiter.counts ≢ some 0

held-leave :
    (u v : Text) (vs : List Text)
    → held v (leave u vs) ≡ (if text_eq u v then held v vs - 1 else held v vs)
unfolding held leave
held-leave u v [] = ground arith
held-leave u v (w ∷ vs) =
    ground (arith, held-leave u v vs, text_eq_iff w u, text_eq_iff w v, text_eq_iff u v)

pub current-release :
    (l : Limiter) (u v : Text)
    → current (release u l) v ≡ (if text_eq u v then current l v - 1 else current l v)
unfolding release
current-release l u v = ground (
  arith,
  lookup-insert u v (max 0 (current l u - 1)) l.counts,
  lookup-remove u v l.counts,
  text_eq_iff u v,
)

pub current-acquire :
    (l : Limiter) (u v : Text)
    → (acquire u l).0 ≡ ok tt
    → current (acquire u l).1 v ≡ (if text_eq u v then current l v + 1 else current l v)
unfolding acquire
current-acquire l u v h =
    ground (arith, lookup-insert u v (current l u + 1) l.counts, text_eq_iff u v)

pub current-refused :
    (l : Limiter) (u v : Text) (e : Error)
    → (acquire u l).0 ≡ raised e
    → current (acquire u l).1 v ≡ current l v
unfolding acquire
current-refused l u v e h = ground arith

pub acquire-below-cap : (l : Limiter) (u : Text) → (acquire u l).0 ≡ ok tt → current l u < cap l
unfolding acquire
acquire-below-cap l u h = ground arith

pub cap-acquire : (l : Limiter) (u : Text) → cap (acquire u l).1 ≡ cap l
unfolding acquire
cap-acquire l u = ground arith

pub cap-release : (l : Limiter) (u : Text) → cap (release u l) ≡ cap l
unfolding release
cap-release l u = ground arith

lookup-acquire-ne-zero :
    (l : Limiter) (u v : Text)
    → lookup v l.counts ≢ some 0
    → lookup v (acquire u l).1.counts ≢ some 0
unfolding acquire
lookup-acquire-ne-zero l u v h =
    ground (arith, lookup-insert u v (current l u + 1) l.counts, text_eq_iff u v)

lookup-release-ne-zero :
    (l : Limiter) (u v : Text) → lookup v l.counts ≢ some 0 → lookup v (release u l).counts ≢ some 0
unfolding release
lookup-release-ne-zero l u v h = ground (
  arith,
  lookup-insert u v (max 0 (current l u - 1)) l.counts,
  lookup-remove u v l.counts,
  text_eq_iff u v,
)

-- Each step keeps the counter of every upload equal to its holders and at most the cap, and leaves
-- no entry at zero.
pub Step-IsExact : {s t : System} → Step s t → IsExact s → IsExact t
unfolding held
Step-IsExact (enters s u h) x = record {
  exact = λ v. ground (arith, current-acquire s.limiter u v h, x.exact v);
  bounded = λ v. ground (
    arith,
    current-acquire s.limiter u v h,
    x.bounded v,
    text_eq_iff u v,
    acquire-below-cap s.limiter u h,
    cap-acquire s.limiter u,
  );
  no_zero = λ v. lookup-acquire-ne-zero s.limiter u v (x.no_zero v);
}
Step-IsExact (refused s u e h) x = record {
  exact = λ v. current-refused s.limiter u v e h ∙ x.exact v;
  bounded =
      λ v. omega (arith, current-refused s.limiter u v e h, x.bounded v, cap-acquire s.limiter u);
  no_zero = λ v. lookup-acquire-ne-zero s.limiter u v (x.no_zero v);
}
Step-IsExact (leaves s u h) x = record {
  exact = λ v. ground (arith, current-release s.limiter u v, held-leave u v s.holders, x.exact v);
  bounded =
      λ v. ground (arith, current-release s.limiter u v, x.bounded v, cap-release s.limiter u);
  no_zero = λ v. lookup-release-ne-zero s.limiter u v (x.no_zero v);
}

Step-cap : {s t : System} → Step s t → cap t.limiter ≡ cap s.limiter
Step-cap (enters s u h) = cap-acquire s.limiter u
Step-cap (refused s u e h) = cap-acquire s.limiter u
Step-cap (leaves s u h) = cap-release s.limiter u

Reach-IsExact : {s t : System} → IsExact s → Reach s t → IsExact t
Reach-IsExact x here = x
Reach-IsExact x (next r st) = Step-IsExact st (Reach-IsExact x r)

Reach-cap : {s t : System} → Reach s t → cap t.limiter ≡ cap s.limiter
Reach-cap here = refl
Reach-cap (next r st) = Step-cap st ∙ Reach-cap r

abbrev pub start : ℕ → Option ℕ → System
start limit fair = record { limiter = init limit fair; holders = [] }

start-IsExact : (limit : ℕ) (fair : Option ℕ) → IsExact (start limit fair)
unfolding lookup held
start-IsExact limit fair = record {
  exact = λ v. refl;
  bounded = λ v. omega arith;
  no_zero = λ v. ground arith;
}

entry-of-zero : (o : Option ℕ) → o ≢ some 0 → get_or o 0 ≡ 0 → o ≡ none
entry-of-zero none h e = refl
entry-of-zero (some n) h e = absurd (h (ap some e))

-- However requests of all uploads interleave from a new limiter, an upload never has more requests
-- in flight than the smaller of the two limits (a fair-share limit of 0 or none does not count),
-- its counter is the number of those requests, and an upload with none has no entry left.
pub Reach-held-le-cap :
    (limit : ℕ) (fair : Option ℕ) {s : System} (u : Text)
    → Reach (start limit fair) s
    → (held u s.holders ≤ cap (init limit fair))
      × (current s.limiter u ≡ held u s.holders)
      × (held u s.holders ≡ 0 → lookup u s.limiter.counts ≡ none)
Reach-held-le-cap limit fair {s} u r =
    let x : IsExact s = Reach-IsExact (start-IsExact limit fair) r in
    (
      omega (arith, x.exact u, x.bounded u, Reach-cap r),
      x.exact u,
      λ e. entry-of-zero (lookup u s.limiter.counts) (x.no_zero u) (x.exact u ∙ e),
    )

-- `acquire` refuses exactly when the upload already has as many requests in flight as it may have,
-- then leaves the counters alone and counts one throttled request; with room it adds one.
pub acquire_decides :
    (l : Limiter) (u : Text)
    → (current l u < cap l
        → ((acquire u l).0 ≡ ok tt) × (current (acquire u l).1 u ≡ current l u + 1))
      × (cap l ≤ current l u
          → ((acquire u l).0 ≢ ok tt)
            × ((acquire u l).1.counts ≡ l.counts)
            × ((acquire u l).1.throttled_requests_total ≡ l.throttled_requests_total + 1))
unfolding acquire
acquire_decides l u = (
  λ h. ground (arith, lookup-insert u u (current l u + 1) l.counts, text_eq_refl u),
  λ h. ground arith,
)

-- A release after a successful acquire restores the counter of every upload.
pub release-acquire :
    (l : Limiter) (u v : Text)
    → (acquire u l).0 ≡ ok tt
    → current (release u (acquire u l).1) v ≡ current l v
release-acquire l u v h =
    ground (arith, current-acquire l u v h, current-release (acquire u l).1 u v)
