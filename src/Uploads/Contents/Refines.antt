-- ===== src/Uploads/Contents/Refines.antt =====
-- The service with the worker pool and `LocalChunkStorage` against the map of the stored bytes.
use distributed_file_service.Storage.{chunk_key}
use distributed_file_service.Prelude.Int.{pos_part}
use distributed_file_service.Prelude.{List, [], false, inl, inr, refl, ◌∷◌, ◌≡◌}
use distributed_file_service.Text.{Bytes, Text}
use distributed_file_service.Config.{Settings, use_external_durable_queue}
use distributed_file_service.DurableQueue.{DurableQueue}
use distributed_file_service.Exec.{Outcome}
use distributed_file_service.Storage.Local.{Files}
use distributed_file_service.World.{AuthUser, World, open_session}
use distributed_file_service.Uploads.Persist.{Schedule}
use distributed_file_service.Uploads.ChunkUpload.{ChunkRequest, UploadChunkResponse, upload_chunk}
use distributed_file_service.Uploads.Serve.{
  Call, Request, chunk, complete, fetch, handle, init, missing, serve, serve_all,
}
use distributed_file_service.Uploads.Contents.{
  Allows, IsLinked, Runs, SameContents, contents, ends, goes, on_disk,
}
use distributed_file_service.Uploads.Contents.Changes.{
  recorded-IsLinked, recorded-contents, written-IsLinked, written-contents,
}
use distributed_file_service.Uploads.Contents.Local.{OnDisk, upload_chunk-OnDisk}
use distributed_file_service.Uploads.Contents.Others.{
  SameChunks, complete_upload-SameChunks, download-SameChunks, init_upload-SameChunks,
  missing_chunks-SameChunks,
}

-- What a request did to the map is allowed, and rows and files are linked again.
abbrev Refined : {Q : Type 0} → Request → World Files Q → World Files Q → Type 0
Refined q w w' =
    Allows q (contents w.db.chunks w.store) (contents w'.db.chunks w'.store)
    × IsLinked w'.db.chunks w'.store

module _ {Q : Type 0} (config : Settings) (queue : DurableQueue Q) (sha256 : Bytes → Text)
    (on_pool : use_external_durable_queue config ≡ false) where
  unchanged :
      (w w' : World Files Q)
      → IsLinked w.db.chunks w.store
      → SameChunks w w'
      → SameContents (contents w.db.chunks w.store) (contents w'.db.chunks w'.store)
        × IsLinked w'.db.chunks w'.store
  unchanged w w' h s = rw (s.same_files, s.same_rows) (λ id index. refl, h)

  chunk-Refined :
      (schedule : Schedule) (r : ChunkRequest) (w : World Files Q)
      (p : Outcome UploadChunkResponse × World Files Q)
      → IsLinked w.db.chunks w.store
      → OnDisk config queue sha256 schedule on_pool r w p
      → Refined (chunk schedule r) w p.1
  chunk-Refined schedule r w p h (inl (files, rows)) = rw (files, rows) (inl (λ id index. refl), h)
  chunk-Refined schedule r w p h (inr (files, inl rows)) =
      rw (files, rows)
        (
          written-contents r.upload_id (pos_part r.chunk_index) r.body w.db.chunks w.store h,
          written-IsLinked r.upload_id (pos_part r.chunk_index) r.body w.db.chunks w.store h,
        )
  chunk-Refined schedule r w p h (inr (files, inr (c, id, index, key, rows))) =
      let own : c.s3_key ≡ chunk_key c.upload_id c.chunk_index = rw (id, index) key in
      rw (files, rows, ← id, ← index)
        (
          inr (recorded-contents c r.body w.db.chunks w.store h own),
          recorded-IsLinked c r.body w.db.chunks w.store h own,
        )

  handle-Refined :
      (user : AuthUser) (q : Request) (w : World Files Q)
      → w.session ≡ w.db
      → IsLinked w.db.chunks w.store
      → Refined q w (handle (on_disk config queue sha256) user q w)
  unfolding handle
  handle-Refined user (init id payload key) w fresh h =
      unchanged w _ h
        (init_upload-SameChunks (on_disk config queue sha256) refl id payload key user w fresh)
  handle-Refined user (chunk schedule r) w fresh h =
      chunk-Refined schedule r w (upload_chunk (on_disk config queue sha256) schedule r user w) h
        (upload_chunk-OnDisk config queue sha256 schedule on_pool r user w fresh)
  handle-Refined user (complete id key) w fresh h =
      unchanged w _ h
        (complete_upload-SameChunks (on_disk config queue sha256) refl id key user w fresh)
  handle-Refined user (missing id) w fresh h =
      unchanged w _ h (missing_chunks-SameChunks (on_disk config queue sha256) refl id user w)
  handle-Refined user (fetch id range) w fresh h =
      unchanged w _ h (download-SameChunks (on_disk config queue sha256) refl id range user w)

  -- With the worker pool and `LocalChunkStorage`, requests of any users in any order refine a map from
  -- an upload and an index to bytes: each request on a chunk leaves the map or puts its body in the
  -- place of that chunk alone, every other request leaves it, and every row of a chunk has the key of
  -- its chunk and a file under it, if that held at the start.
  pub serve_all-Runs :
      (cs : List Call) (w : World Files Q)
      → IsLinked w.db.chunks w.store
      → (let w' = serve_all (on_disk config queue sha256) cs w in
          Runs cs (contents w.db.chunks w.store) (contents w'.db.chunks w'.store)
          × IsLinked w'.db.chunks w'.store)
  unfolding serve_all serve
  serve_all-Runs [] w h = (ends _, h)
  serve_all-Runs (c ∷ cs) w h =
      let (step, linked) =
        handle-Refined c.user c.request (open_session (record w { now = c.time })) refl h in
      let (rest, at_end) = serve_all-Runs cs (serve (on_disk config queue sha256) c w) linked in
      (goes step rest, at_end)
