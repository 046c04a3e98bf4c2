-- ===== src/Uploads/ChunkUpload/Acknowledged.antt =====
-- What a successful answer to a request on a chunk stands for.
use distributed_file_service.Prelude.{
  Bool, Bool-cases, List, Option, Option-cases, [], ap, arith, find, inl, inr, none, refl, some,
  suc, sym, true, update, ℕ, ◌∷◌, ◌≡◌,
}
use distributed_file_service.Prelude.Int.{pos_part}
use distributed_file_service.Text.{Text, text_eq, text_eq_refl}
use distributed_file_service.Exec.{Exec, Outcome, ok, zoom}
use distributed_file_service.Exec.Cases.{bind_cases}
use distributed_file_service.Models.Columns.{rewritten}
use distributed_file_service.Models.{
  Chunk, ChunkRequestIdempotency, Db, Upload, constraints_hold, is_chunk, is_uploaded,
}
use distributed_file_service.Models.Rows.{find-append}
use distributed_file_service.Limits.{acquire}
use distributed_file_service.World.{AuthUser, Service, World, commit, or_run}
use distributed_file_service.Uploads.Access.Cases.{get_owned_cases}
use distributed_file_service.Uploads.Persist.{ChunkWrite, Schedule, Stored, persist_with_retries}
use distributed_file_service.Uploads.ChunkUpload.{
  ChunkRequest, UploadChunkResponse, chunk_replay, limited, new_chunk, put_chunk, record_chunk,
  replay_chunk, replay_chunk_request, store_and_record, upload_chunk, write_of,
}
use distributed_file_service.Uploads.ChunkUpload.Checks.{check_chunk_cases}
use distributed_file_service.Uploads.Sound.Rows.{put_chunk-new, put_chunk-old}

-- The row of a chunk is there and uploaded.
abbrev pub Recorded : Text → ℕ → Db → Type 0
Recorded id index db =
    (c : Chunk) × (find (is_chunk id index) db.chunks ≡ some c) × (is_uploaded c.status ≡ true)

pub find-update_taken :
    {A : Type 0} (p : A → Bool) (f : A → A) (xs : List A) (x : A)
    → ((y : A) → p (f y) ≡ true)
    → find p xs ≡ some x
    → (y : A) × (find p (update p f xs) ≡ some (f y))
unfolding find update
find-update_taken p f [] x h e = absurd (ground (arith, e))
find-update_taken p f (y ∷ xs) x h e = elim (Bool-cases (p y)) [
  | inl k ↦ (y, rw (k, h y))
  | inr k ↦ let (z, q) = find-update_taken p f xs x h (rw (k, find) at e) in (z, rw (k, find, k) q)
]

pub is_chunk-own : (c : Chunk) → is_chunk c.upload_id c.chunk_index c ≡ true
unfolding is_chunk
is_chunk-own c = ground (arith, text_eq_refl c.upload_id)

put_chunk-Recorded :
    (c : Chunk) (cs : List Chunk)
    → is_uploaded c.status ≡ true
    → (d : Chunk) × (find (is_chunk c.upload_id c.chunk_index) (put_chunk c cs) ≡ some d)
      × (is_uploaded d.status ≡ true)
unfolding find rewritten
put_chunk-Recorded c cs up = elim (Option-cases (find (is_chunk c.upload_id c.chunk_index) cs)) [
  | inl e ↦ (c, rw (put_chunk-new c cs e, find-append, e, is_chunk-own c), up)
  | inr (x, e) ↦
      let f = rewritten c in
      let (y, q) =
        find-update_taken (is_chunk c.upload_id c.chunk_index) f cs x (λ y. is_chunk-own (f y)) e in
      (f y, rw (put_chunk-old c cs x e) q, up)
]

record_chunk-Recorded :
    (c : ChunkWrite) (print : Text) (key : Option Text) (stored : Stored) (retries now : ℕ)
    (db : Db)
    → Recorded c.upload_id c.chunk_index (record_chunk c print key stored retries now db)
unfolding record_chunk
record_chunk-Recorded c print none stored retries now db =
    put_chunk-Recorded (new_chunk c print stored retries now) db.chunks refl
record_chunk-Recorded c print (some []) stored retries now db =
    put_chunk-Recorded (new_chunk c print stored retries now) db.chunks refl
record_chunk-Recorded c print (some (k ∷ key)) stored retries now db =
    put_chunk-Recorded (new_chunk c print stored retries now) db.chunks refl

module _ {St Q : Type 0} (v : Service St Q) (schedule : Schedule) (r : ChunkRequest) where
  -- A successful answer says that the row is there.
  abbrev pub Acknowledges : Outcome UploadChunkResponse × World St Q → Type 0
  Acknowledges p =
      (out : UploadChunkResponse)
      → p.0 ≡ ok out
      → Recorded r.upload_id (pos_part r.chunk_index) p.1.db

  store_and_record-Acknowledges :
      (u : Upload) (w : World St Q)
      → Acknowledges
          (store_and_record v schedule (write_of u r) (v.sha256 r.body) r.idempotency_key w)
  unfolding store_and_record commit
  store_and_record-Acknowledges u w =
      bind_cases Acknowledges
        (persist_with_retries (suc v.config.max_retries) v schedule 0 (write_of u r)) _ w
        (λ stored w₂ e.
          elim (Bool-cases (
            constraints_hold (
              record_chunk (write_of u r) (v.sha256 r.body) r.idempotency_key stored.0 stored.1
                w₂.now w₂.session))) [
                  | inl c ↦ rw c (λ out h.
                      record_chunk-Recorded (write_of u r) (v.sha256 r.body) r.idempotency_key
                        stored.0 stored.1 w₂.now w₂.session)
                  | inr c ↦ rw c (λ out h. absurd (ground (arith, h)))
                ])
        (λ x w₂ e out h. absurd (ground (arith, h)))

  limited-Acknowledges :
      (body : Exec (World St Q) UploadChunkResponse) (w : World St Q)
      → ((w' : World St Q) → Acknowledges (body w'))
      → Acknowledges (limited r.upload_id body w)
  unfolding limited
  limited-Acknowledges body w k =
      bind_cases Acknowledges
        (zoom (λ w. w.limiter) (λ l w. record w { limiter = l }) (acquire r.upload_id)) _ w
        (λ _ w₁ e. k w₁) (λ x w₁ e out h. absurd (ground (arith, h)))

  -- A stored answer is given only for a row that is there.
  replay_chunk-Recorded :
      (id : Text) (index : ℕ) (db : Db) (out : UploadChunkResponse)
      → replay_chunk id index (find (is_chunk id index) db.chunks) ≡ some out
      → Recorded id index db
  unfolding replay_chunk
  replay_chunk-Recorded id index db out h =
      elim (Option-cases (find (is_chunk id index) db.chunks)) [
        | inl e ↦ absurd (ground (arith, rw e at h))
        | inr (c, e) ↦ elim (Bool-cases (is_uploaded c.status)) [
          | inl up ↦ (c, e, up)
          | inr no_row ↦ absurd (ground (arith, rw (e, no_row) at h))
        ]
      ]

  replay_chunk_request-Recorded :
      (id : Text) (index : ℕ) (print : Text) (db : Db) (o : Option ChunkRequestIdempotency)
      (out : UploadChunkResponse)
      → replay_chunk_request id index print db o ≡ ok (some out)
      → Recorded id index db
  unfolding replay_chunk_request
  replay_chunk_request-Recorded id index print db none out h = absurd (ground (arith, h))
  replay_chunk_request-Recorded id index print db (some row) out h =
      elim (Bool-cases (text_eq row.request_fingerprint print)) [
        | inl e ↦ replay_chunk-Recorded id index db out (ground (arith, rw e at h))
        | inr e ↦ absurd (ground (arith, rw e at h))
      ]

  chunk_replay-Recorded :
      (id : Text) (index : ℕ) (print : Text) (key : Option Text) (w s : World St Q)
      (o : Option UploadChunkResponse)
      → chunk_replay id index print key w ≡ (ok o, s)
      → (s ≡ w) × ((out : UploadChunkResponse) → o ≡ some out → Recorded id index w.session)
  unfolding chunk_replay
  chunk_replay-Recorded id index print none w s o h =
      (sym (ap (λ p. p.1) h), λ out e. absurd (ground (arith, h, e)))
  chunk_replay-Recorded id index print (some []) w s o h =
      (sym (ap (λ p. p.1) h), λ out e. absurd (ground (arith, h, e)))
  chunk_replay-Recorded id index print (some (k ∷ key)) w s o h = (
    sym (ap (λ p. p.1) h),
    λ out e.
        replay_chunk_request-Recorded id index print w.session _ out (rw e at (ap (λ p. p.0) h)),
  )

  or_write-Acknowledges :
      (replay : Option UploadChunkResponse) (u : Upload) (w : World St Q)
      → ((out : UploadChunkResponse)
          → replay ≡ some out
          → Recorded r.upload_id (pos_part r.chunk_index) w.db)
      → Acknowledges (
          or_run replay
            (limited r.upload_id
              (store_and_record v schedule (write_of u r) (v.sha256 r.body) r.idempotency_key))
            w)
  or_write-Acknowledges (some response) u w k = λ out h. k response refl
  or_write-Acknowledges none u w k = limited-Acknowledges _ w (store_and_record-Acknowledges u)

  upload_chunk-Acknowledges :
      (w : World St Q) (user : AuthUser)
      → w.session ≡ w.db
      → Acknowledges (upload_chunk v schedule r user w)
  unfolding upload_chunk
  upload_chunk-Acknowledges w user fresh =
      get_owned_cases Acknowledges r.upload_id user _ w
        (λ u found owner.
          check_chunk_cases Acknowledges v u r _ w
            (λ accepted.
              bind_cases Acknowledges
                (chunk_replay r.upload_id (pos_part r.chunk_index) (v.sha256 r.body)
                  r.idempotency_key)
                _ w
                (λ replay s e.
                  let (same, k) =
                    chunk_replay-Recorded r.upload_id (pos_part r.chunk_index) (v.sha256 r.body)
                      r.idempotency_key w s replay e in
                  or_write-Acknowledges replay u s (rw (same, ← fresh) k))
                (λ x s e out h. absurd (ground (arith, h))))
            (λ e out h. absurd (ground (arith, h))))
        (λ e out h. absurd (ground (arith, h)))

  -- If a request on a chunk is answered with success, be it new or a replay of its idempotency key,
  -- the committed database has a row of that chunk, and it is an uploaded one.
  pub upload_chunk-Recorded :
      (w : World St Q) (user : AuthUser) (out : UploadChunkResponse)
      → w.session ≡ w.db
      → (upload_chunk v schedule r user w).0 ≡ ok out
      → Recorded r.upload_id (pos_part r.chunk_index) (upload_chunk v schedule r user w).1.db
  upload_chunk-Recorded w user out fresh h = upload_chunk-Acknowledges w user fresh out h
