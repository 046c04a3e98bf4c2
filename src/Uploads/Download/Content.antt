-- ===== src/Uploads/Download/Content.antt =====
-- What a download of a completed upload sends.
use distributed_file_service.Prelude.{
  List, Option, ap, arith, concat, find, length, none, refl, select, some, sym, true, ℕ, ◌+◌, ◌-◌,
  ◌<◌, ◌==◌, ◌∙◌, ◌∷◌, ◌≡◌,
}
use distributed_file_service.Text.{Bytes, Text}
use distributed_file_service.Exec.{ok, raised, Error}
use distributed_file_service.Models.{Db, Upload, completed, has_id, of_upload}
use distributed_file_service.Models.Rows.{length-order_by_index, length-select}
use distributed_file_service.Range.{parse_range}
use distributed_file_service.Range.Bounds.{parse_range_bounds}
use distributed_file_service.Stream.{slice}
use distributed_file_service.Stream.Slices.{Reads, concat-stream_bytes_for_range}
use distributed_file_service.World.{AuthUser, Service, World}
use distributed_file_service.Uploads.Access.Cases.{get_owned_own}
use distributed_file_service.Uploads.Complete.{chunks_of}
use distributed_file_service.Uploads.Download.{
  DownloadResponse, audit_download, download, keys_of, range_response, reader, respond,
  stream_chunks, whole_response, without_quotes,
}
use distributed_file_service.Uploads.Sound.{IsSound}
use distributed_file_service.Uploads.Sound.Rows.{count-Fits}

pub length-chunks_of :
    (id : Text) (db : Db) (u : Upload)
    → IsSound db
    → find (has_id id) db.uploads ≡ some u
    → u.status ≡ completed
    → length (chunks_of id db) ≡ u.total_chunks
unfolding chunks_of
length-chunks_of id db u sound found done =
    length-order_by_index (select (of_upload id) db.chunks)
    ∙ length-select (of_upload id) db.chunks
    ∙ sym (count-Fits id u.total_chunks db.chunks (sound.rows id u found))
    ∙ sound.complete id u found done

-- A completed upload of the user on sound tables, and the bytes that the store has for its chunks.
module _ {St Q : Type 0} (v : Service St Q) (id : Text) (user : AuthUser) (w : World St Q)
    (upload : Upload) (contents : List Bytes) (sound : IsSound w.session)
    (found : find (has_id id) w.session.uploads ≡ some upload)
    (owner : upload.owner_id ≡ user.user_id) (done : upload.status ≡ completed)
    (stored : Reads (reader v w) (keys_of (chunks_of id w.session)) contents) where
  -- The checks pass, so the request comes to its answer.
  download-respond :
      (range : Option Text)
      → (download v id range user w).0
        ≡ (respond v upload (chunks_of id w.session) range (audit_download upload user range w)).0
  unfolding download
  download-respond range =
      ap (λ p. p.0) (get_owned_own id user _ w upload found owner)
      ∙ rw (done, length-chunks_of id w.session upload sound found done, self upload.total_chunks)
          refl
    where
      self : (n : ℕ) → (n == n) ≡ true
      self n = ground arith

  -- For a completed upload of the user on sound tables, whose chunks the store has: a download
  -- without a range answers 200 with a stream that does not fail and whose bytes are the first
  -- `file_size` of the joined chunks, if `file_size` is not 0.
  pub download-whole :
      0 < upload.file_size
      → (out : DownloadResponse) × ((download v id none user w).0 ≡ ok out)
        × (out.status_code ≡ 200)
        × (concat out.body.blocks ≡ slice 0 upload.file_size (concat contents))
        × (out.body.failure ≡ none)
  unfolding respond whole_response
  download-whole pos =
      let b =
        concat-stream_bytes_for_range (reader v w) (keys_of (chunks_of id w.session)) contents 0
          (upload.file_size - 1) (omega arith) stored in
      let e : upload.file_size - 1 + 1 ≡ upload.file_size = omega arith in
      (_, download-respond none, refl, rw e at b.0, b.1)

  abbrev ranged_out : ℕ → ℕ → DownloadResponse
  ranged_out start end = record {
    status_code = 206;
    content_range = some (start, end, upload.file_size);
    file_name = without_quotes upload.file_name;
    body = stream_chunks v w (chunks_of id w.session) start end;
  }

  -- For a completed upload of the user on sound tables, whose chunks the store has: a download with
  -- a range header that is read as a range answers 206 with a stream that does not fail and whose
  -- bytes are exactly those of the joined chunks.
  pub download-range :
      (c : ℕ) (header : Text) (start end : ℕ)
      → parse_range (c ∷ header) upload.file_size ≡ ok (start, end)
      → (out : DownloadResponse) × ((download v id (some (c ∷ header)) user w).0 ≡ ok out)
        × (out.status_code ≡ 206)
        × (out.content_range ≡ some (start, end, upload.file_size))
        × (concat out.body.blocks ≡ slice start (end + 1) (concat contents))
        × (out.body.failure ≡ none)
  unfolding respond range_response
  download-range c header start end h =
      let bounds = parse_range_bounds (c ∷ header) upload.file_size start end h in
      let b =
        concat-stream_bytes_for_range (reader v w) (keys_of (chunks_of id w.session)) contents start
          end bounds.0 stored in
      (ranged_out start end, download-respond (some (c ∷ header)) ∙ rw h refl, refl, refl, b.0, b.1)

  -- A download with a range header that is refused raises what `_parse_range` raises.
  pub download-raised :
      (c : ℕ) (header : Text) (e : Error)
      → parse_range (c ∷ header) upload.file_size ≡ raised e
      → (download v id (some (c ∷ header)) user w).0 ≡ raised e
  unfolding respond range_response
  download-raised c header e h = download-respond (some (c ∷ header)) ∙ rw h refl
