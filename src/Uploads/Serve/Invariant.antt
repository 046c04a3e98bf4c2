-- ===== src/Uploads/Serve/Invariant.antt =====
-- What holds of the tables after any requests.
use distributed_file_service.Prelude.{
  List, [], arith, count, distinct, find, inl, inr, refl, ◌∷◌, ◌≡◌,
}
use distributed_file_service.Models.{empty_db}
use distributed_file_service.World.{AuthUser, Service, World, open_session}
use distributed_file_service.Uploads.Init.Effect.{init_upload-effect}
use distributed_file_service.Uploads.ChunkUpload.Effect.{upload_chunk-effect}
use distributed_file_service.Uploads.Complete.Effect.{complete_upload-effect}
use distributed_file_service.Uploads.Download.Frame.{download-frame, missing_chunks-frame}
use distributed_file_service.Uploads.Sound.{IsSound}
use distributed_file_service.Uploads.Sound.Steps.{
  Completed-IsSound, Created-IsSound, Remembered-IsSound, Written-IsSound,
}
use distributed_file_service.Uploads.Serve.{
  Call, Request, chunk, complete, fetch, handle, init, missing, serve, serve_all,
}

pub empty-IsSound : IsSound empty_db
unfolding find count distinct
empty-IsSound = record {
  complete = λ id u e d. ground arith;
  rows = λ id u e. tt;
  no_orphan = λ id e. refl;
  initial = λ id u e s. refl;
  unique_chunks = refl;
}

module _ {St Q : Type 0} (v : Service St Q) where
  pub handle-IsSound :
      (user : AuthUser) (q : Request) (w : World St Q)
      → w.session ≡ w.db
      → IsSound w.db
      → IsSound (handle v user q w).db
  unfolding handle
  handle-IsSound user (init id payload key) w fresh h =
      elim (init_upload-effect v id payload key user w fresh) [
        | inl same ↦ rw same h
        | inr e ↦ Created-IsSound v id payload key user w.store w.now w.db _ e h
      ]
  handle-IsSound user (chunk schedule r) w fresh h =
      elim (upload_chunk-effect v schedule r user w fresh) [
        | inl same ↦ rw same h
        | inr e ↦ Written-IsSound v schedule r user w _ e h
      ]
  handle-IsSound user (complete id key) w fresh h =
      elim (complete_upload-effect v id key w user fresh) [
        | inl same ↦ rw same h
        | inr (inl e) ↦ Remembered-IsSound id key w.db _ e h
        | inr (inr e) ↦ Completed-IsSound id key w.db _ e h
      ]
  handle-IsSound user (missing id) w fresh h = rw (missing_chunks-frame id user w) h
  handle-IsSound user (fetch id range) w fresh h = rw (download-frame v id range user w) h

  -- Requests of any users in any order keep the tables sound: each completed upload has as many
  -- uploaded chunks as it announced, every chunk belongs to an upload and has an index in it, an
  -- upload in the first state has none, and no chunk is there twice.
  pub serve_all-IsSound :
      (cs : List Call) (w : World St Q) → IsSound w.db → IsSound (serve_all v cs w).db
  unfolding serve_all serve
  serve_all-IsSound [] w h = h
  serve_all-IsSound (c ∷ cs) w h =
      serve_all-IsSound cs (serve v c w)
        (handle-IsSound c.user c.request (open_session (record w { now = c.time })) refl h)
