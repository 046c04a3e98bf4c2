-- ===== src/Tests/Downloads.antt =====
-- Reading requests at concrete inputs.
use distributed_file_service.Prelude.{
  [], any, arith, concat, count, distinct, find, none, refl, select, some, ◌∷◌, ◌≡◌,
}
use distributed_file_service.Text.{Text, codes, text_eq}
use distributed_file_service.Exec.{ok}
use distributed_file_service.Dict.{lookup}
use distributed_file_service.Models.{
  Db, Upload, completed, has_id, insert_chunk, of_upload, order_by_index, uploaded_of,
}
use distributed_file_service.Stream.{slice}
use distributed_file_service.Stream.Slices.{Reads}
use distributed_file_service.Range.{parse_range}
use distributed_file_service.Storage.Local.{read_chunk}
use distributed_file_service.Uploads.Complete.{chunks_of}
use distributed_file_service.Uploads.Download.{
  DownloadResponse, download, keys_of, missing_chunks, reader,
}
use distributed_file_service.Uploads.Download.Missing.{Lists, missing_chunks-Lists}
use distributed_file_service.Uploads.Download.Content.{download-range, download-whole}
use distributed_file_service.Uploads.Sound.{IsSound}
use distributed_file_service.Tests.Data.{
  Local, alice, alices_upload, local_service, local_world, ready_db,
}

-- The upload is completed, and its chunk stored under the key `k`.
abbrev done_upload : Upload
done_upload = record alices_upload { status = completed }

abbrev done_db : Db
done_db = record ready_db { uploads = done_upload ∷ [] }

abbrev done_world : Local
done_world = record local_world {
  db = done_db;
  session = done_db;
  store = (codes "k", 1 ∷ 2 ∷ 3 ∷ []) ∷ [];
}

done_db-IsSound : IsSound done_db
unfolding find count distinct any uploaded_of of_upload
done_db-IsSound = record {
  complete = λ id u e d. ground arith;
  rows = λ id u e. (record { fits = λ q. ground arith }, tt);
  no_orphan = λ id e. ground arith;
  initial = λ id u e s. ground arith;
  unique_chunks = refl;
}

found_done : find (has_id (codes "a")) done_db.uploads ≡ some done_upload
unfolding find text_eq
found_done = refl

missing_chunks-Lists_example :
    Lists (codes "a") done_upload done_world (missing_chunks (codes "a") alice done_world)
missing_chunks-Lists_example =
    missing_chunks-Lists (codes "a") alice done_world done_upload done_db-IsSound found_done refl

done_is_stored :
    Reads
      (reader local_service done_world)
      (keys_of (chunks_of (codes "a") done_db))
      ((1 ∷ 2 ∷ 3 ∷ []) ∷ [])
unfolding text_eq chunks_of order_by_index insert_chunk select of_upload lookup read_chunk
done_is_stored = (refl, tt)

download-whole_example :
    (out : DownloadResponse) × ((download local_service (codes "a") none alice done_world).0
      ≡ ok out)
    × (out.status_code ≡ 200)
    × (concat out.body.blocks ≡ slice 0 3 (concat ((1 ∷ 2 ∷ 3 ∷ []) ∷ [])))
    × (out.body.failure ≡ none)
download-whole_example =
    download-whole local_service (codes "a") alice done_world done_upload ((1 ∷ 2 ∷ 3 ∷ []) ∷ [])
      done_db-IsSound found_done refl refl done_is_stored (omega arith)

abbrev a_range : Text
a_range = codes "ytes=1-1"

a_range_is_read : parse_range (b'b' ∷ a_range) 3 ≡ ok (1, 1)
unfolding parse_range
a_range_is_read = refl

download-range_example :
    (out : DownloadResponse) × ((download local_service
        (codes "a")
        (some (b'b' ∷ a_range))
        alice
        done_world).0
      ≡ ok out)
    × (out.status_code ≡ 206)
    × (out.content_range ≡ some (1, 1, 3))
    × (concat out.body.blocks ≡ slice 1 2 (concat ((1 ∷ 2 ∷ 3 ∷ []) ∷ [])))
    × (out.body.failure ≡ none)
download-range_example =
    download-range local_service (codes "a") alice done_world done_upload ((1 ∷ 2 ∷ 3 ∷ []) ∷ [])
      done_db-IsSound found_done refl refl done_is_stored b'b' a_range 1 1 a_range_is_read
