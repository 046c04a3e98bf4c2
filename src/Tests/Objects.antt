-- ===== src/Tests/Objects.antt =====
-- Keys, listings, tasks and results at concrete inputs.
use distributed_file_service.Prelude.{
  List, [], arith, concat, false, none, refl, some, true, ◌∷◌, ◌≡◌,
}
use distributed_file_service.Text.{Text, codes}
use distributed_file_service.Exec.{ok, pure}
use distributed_file_service.Storage.S3.{Page, S3Client, s3_storage}
use distributed_file_service.Storage.S3.Paging.{KeysOf, Lists, last, list_keys-Lists, more}
use distributed_file_service.DurableQueue.{Results, failure, success}
use distributed_file_service.DurableQueue.Base64.{decode, decode-encode, encode}

abbrev first_page : Page
first_page = record {
  keys = some (codes "k1") ∷ none ∷ [];
  is_truncated = true;
  next_token = some (codes "t");
}

abbrev second_page : Page
second_page = record { keys = some (codes "k2") ∷ []; is_truncated = false; next_token = none }

-- A bucket whose listing has two pages.
abbrev two_pages : S3Client Unit
two_pages = record {
  create_multipart_upload = λ key. pure (codes "m");
  put_object = λ key bytes. pure none;
  upload_part = λ key number id bytes. pure none;
  complete_multipart_upload = λ key id parts. pure tt;
  get_object = λ key. pure [];
  list_objects_v2 =
      λ prefix token. elim token [ none ↦ pure first_page | some t ↦ pure second_page ];
  delete_object = λ key. pure tt;
}

two_pages-Lists :
    Lists two_pages tt (codes "uploads/") none (first_page.keys ∷ second_page.keys ∷ [])
two_pages-Lists = more none first_page refl refl (last (some (codes "t")) second_page refl refl)

list_keys-Lists_example :
    (keys : List Text) × KeysOf (concat (first_page.keys ∷ second_page.keys ∷ [])) keys
    × ((s3_storage two_pages 2).list_keys (codes "uploads/") tt ≡ (ok keys, tt))
list_keys-Lists_example =
    list_keys-Lists two_pages tt (codes "uploads/") 2 two_pages-Lists (omega arith)

decode-encode_example : decode (encode (255 ∷ 0 ∷ 17 ∷ 4 ∷ [])) ≡ some (255 ∷ 0 ∷ 17 ∷ 4 ∷ [])
decode-encode_example =
    decode-encode (255 ∷ 0 ∷ 17 ∷ 4 ∷ [])
      (omega arith, (omega arith, (omega arith, (omega arith, tt))))

abbrev two_results : Results
two_results = (codes "t", success (codes "k") none) ∷ (codes "s", failure "disk full") ∷ []
