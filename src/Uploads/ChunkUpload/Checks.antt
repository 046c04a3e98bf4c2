-- ===== src/Uploads/ChunkUpload/Checks.antt =====
-- What `upload_chunk` has checked when it gets to write.
use distributed_file_service.Prelude.{
  Option, [], arith, false, find, length, ltb, none, not, refl, some, ℕ, ◌&&◌, ◌<◌, ◌==◌, ◌||◌, ◌∷◌,
  ◌≡◌, ◌⊎◌,
}
use distributed_file_service.Prelude.Int.{ltb_ℤ, negsuc, pos, pos_part, ℤ}
use distributed_file_service.Text.{Bytes, Text}
use distributed_file_service.Exec.{Error, Exec, Outcome, next_with, ok, raised, ◌>>=◌}
use distributed_file_service.Exec.Cases.{raise_if_cases}
use distributed_file_service.Models.{
  Upload, UploadStatus, in_progress, initiated, is_chunk_request, is_in_progress, is_initiated,
}
use distributed_file_service.World.{Service, World}
use distributed_file_service.Uploads.ChunkUpload.{
  ChunkRequest, UploadChunkResponse, check_body, check_chunk, check_target, checksum_differs,
  checksum_mismatch, chunk_replay, empty_payload, index_out_of_bounds, is_empty, length_mismatch,
  not_accepting, replay_chunk_request,
}

-- What a request has passed when it gets to write.
pub record Accepted {St Q : Type 0} (v : Service St Q) (u : Upload) (r : ChunkRequest)
    : Type 0 where
  pub open_state : (u.status ≡ in_progress) ⊎ (u.status ≡ initiated)
  pub index : ℕ
  pub index_eq : r.chunk_index ≡ pos index
  pub in_range : index < u.total_chunks
  pub not_empty : 0 < length r.body
  pub length_ok : (r.content_length ≡ 0) ⊎ (r.content_length ≡ length r.body)
  pub checksum_ok : checksum_differs r.chunk_sha256 (v.sha256 r.body) ≡ false

by_state :
    (t : UploadStatus)
    → not (is_in_progress t || is_initiated t) ≡ false
    → (t ≡ in_progress) ⊎ (t ≡ initiated)
by_state t a = ground arith

by_index :
    (i : ℤ) (n : ℕ) → (ltb_ℤ i (pos 0) || not (ltb_ℤ i (pos n))) ≡ false → i ≡ pos (pos_part i)
by_index (pos i) n h = refl
by_index (negsuc i) n h = ground arith

pub by_range : (i : ℤ) (n : ℕ) → (ltb_ℤ i (pos 0) || not (ltb_ℤ i (pos n))) ≡ false → pos_part i < n
by_range (pos i) n h = ground arith
by_range (negsuc i) n h = ground arith

by_body : (b : Bytes) → is_empty b ≡ false → 0 < length b
by_body [] h = cc
by_body (x ∷ b) h = omega arith

accepts :
    {St Q : Type 0} (v : Service St Q) (u : Upload) (r : ChunkRequest)
    → not (is_in_progress u.status || is_initiated u.status) ≡ false
    → (ltb_ℤ r.chunk_index (pos 0) || not (ltb_ℤ r.chunk_index (pos u.total_chunks))) ≡ false
    → is_empty r.body ≡ false
    → (ltb 0 r.content_length && not (r.content_length == length r.body)) ≡ false
    → checksum_differs r.chunk_sha256 (v.sha256 r.body) ≡ false
    → Accepted v u r
accepts v u r a b c d e = record {
  open_state = by_state u.status a;
  index = pos_part r.chunk_index;
  index_eq = by_index r.chunk_index u.total_chunks b;
  in_range = by_range r.chunk_index u.total_chunks b;
  not_empty = by_body r.body c;
  length_ok = ground arith;
  checksum_ok = e;
}

module _ {St Q B : Type 0} where
  pub check_target_cases :
      (R : Outcome B × World St Q → Type 0) (u : Upload) (r : ChunkRequest)
      (f : Unit → Exec (World St Q) B) (w : World St Q)
      → (not (is_in_progress u.status || is_initiated u.status) ≡ false
          → (ltb_ℤ r.chunk_index (pos 0) || not (ltb_ℤ r.chunk_index (pos u.total_chunks))) ≡ false
          → R (f tt w))
      → ((e : Error) → R (raised e, w))
      → R ((check_target u r >>= f) w)
  unfolding check_target
  check_target_cases R u r f w go_on stop =
      raise_if_cases (λ p. R (next_with f p)) _ not_accepting _ w
        (λ a. raise_if_cases R _ index_out_of_bounds f w (go_on a) (λ _. stop index_out_of_bounds))
        (λ _. stop not_accepting)

module _ {St Q B : Type 0} where
  pub check_body_cases :
      (R : Outcome B × World St Q → Type 0) (v : Service St Q) (r : ChunkRequest)
      (f : Unit → Exec (World St Q) B) (w : World St Q)
      → (is_empty r.body ≡ false
          → (ltb 0 r.content_length && not (r.content_length == length r.body)) ≡ false
          → checksum_differs r.chunk_sha256 (v.sha256 r.body) ≡ false
          → R (f tt w))
      → ((e : Error) → R (raised e, w))
      → R ((check_body v r >>= f) w)
  unfolding check_body
  check_body_cases R v r f w go_on stop =
      let rest = λ (p : Outcome Unit × World St Q). R (next_with f p) in
      raise_if_cases rest _ empty_payload _ w
        (λ c.
          raise_if_cases rest _ length_mismatch _ w
            (λ d.
              raise_if_cases R _ checksum_mismatch f w (go_on c d) (λ _. stop checksum_mismatch))
            (λ _. stop length_mismatch))
        (λ _. stop empty_payload)

  pub check_chunk_cases :
      (R : Outcome B × World St Q → Type 0) (v : Service St Q) (u : Upload) (r : ChunkRequest)
      (f : Unit → Exec (World St Q) B) (w : World St Q)
      → (Accepted v u r → R (f tt w))
      → ((e : Error) → R (raised e, w))
      → R ((check_chunk v u r >>= f) w)
  unfolding check_chunk
  check_chunk_cases R v u r f w go_on stop =
      check_target_cases (λ p. R (next_with f p)) u r (λ _. check_body v r) w
        (λ a b. check_body_cases R v r f w (λ c d e. go_on (accepts v u r a b c d e)) stop) stop

  pub outcome_cases :
      {A : Type 0} (R : Outcome B × World St Q → Type 0) (o : Outcome A)
      (f : A → Exec (World St Q) B) (w : World St Q)
      → ((a : A) → o ≡ ok a → R (f a w))
      → ((e : Error) → R (raised e, w))
      → R (next_with f (o, w))
  outcome_cases R (ok a) f w go_on stop = go_on a refl
  outcome_cases R (raised e) f w go_on stop = stop e

  -- The look-up of a replay changes nothing.
  pub chunk_replay_cases :
      (R : Outcome B × World St Q → Type 0) (id : Text) (index : ℕ) (print : Text)
      (key : Option Text) (f : Option UploadChunkResponse → Exec (World St Q) B) (w : World St Q)
      → ((o : Option UploadChunkResponse) → R (f o w))
      → ((e : Error) → R (raised e, w))
      → R ((chunk_replay id index print key >>= f) w)
  unfolding chunk_replay
  chunk_replay_cases R id index print none f w go_on stop = go_on none
  chunk_replay_cases R id index print (some []) f w go_on stop = go_on none
  chunk_replay_cases R id index print (some (k ∷ key)) f w go_on stop =
      outcome_cases R
        (replay_chunk_request id index print w.session
          (find (is_chunk_request id index (k ∷ key)) w.session.chunk_requests))
        f w (λ o _. go_on o) stop
