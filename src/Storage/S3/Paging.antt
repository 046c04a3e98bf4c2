-- ===== src/Storage/S3/Paging.antt =====
-- `list_keys` of `S3ChunkStorage` follows the continuation tokens to the last page.
use distributed_file_service.Prelude.{
  List, Option, [], ap, append-nil, append_assoc, arith, concat, false, length, none, some, suc,
  true, zero, ℕ, ◌++◌, ◌∙◌, ◌∷◌, ◌≡◌, ◌≢◌, ◌≤◌,
}
use distributed_file_service.Text.{Text}
use distributed_file_service.Exec.{ok}
use distributed_file_service.Storage.S3.{
  Page, S3Client, item_keys, list_pages, s3_storage, truthy_token,
}

-- What the service documents of a listing that nothing disturbs: asked with a token, it answers
-- with one page and leaves the bucket as it is; a truncated page names the token of the next.
-- `pages` are the keys of the pages from this token on.
pub data Lists {Client : Type 0} (client : S3Client Client) (s : Client) (prefix : Text)
    : Option Text → List (List (Option Text)) → Type 0 where
  last :
      (token : Option Text) (page : Page)
      → client.list_objects_v2 prefix (truthy_token token) s ≡ (ok page, s)
      → page.is_truncated ≡ false
      → Lists client s prefix token (page.keys ∷ [])
  more :
      (token : Option Text) (page : Page) {rest : List (List (Option Text))}
      → client.list_objects_v2 prefix (truthy_token token) s ≡ (ok page, s)
      → page.is_truncated ≡ true
      → Lists client s prefix page.next_token rest
      → Lists client s prefix token (page.keys ∷ rest)

-- The keys of a list of items, in order: an item with no key or an empty one has none.
pub data KeysOf : List (Option Text) → List Text → Type 0 where
  no_items : KeysOf [] []
  no_key :
      {items : List (Option Text)} {keys : List Text}
      → KeysOf items keys
      → KeysOf (none ∷ items) keys
  empty_key :
      {items : List (Option Text)} {keys : List Text}
      → KeysOf items keys
      → KeysOf (some [] ∷ items) keys
  has_key :
      {items : List (Option Text)} {keys : List Text} (key : Text)
      → key ≢ []
      → KeysOf items keys
      → KeysOf (some key ∷ items) (key ∷ keys)

item_keys-KeysOf : (items : List (Option Text)) → KeysOf items (item_keys items)
unfolding item_keys
item_keys-KeysOf [] = no_items
item_keys-KeysOf (none ∷ items) = no_key (item_keys-KeysOf items)
item_keys-KeysOf (some [] ∷ items) = empty_key (item_keys-KeysOf items)
item_keys-KeysOf (some (c ∷ k) ∷ items) =
    has_key (c ∷ k) (λ e. ground (arith, e)) (item_keys-KeysOf items)

KeysOf-append :
    {items others : List (Option Text)} {keys rest : List Text}
    → KeysOf items keys
    → KeysOf others rest
    → KeysOf (items ++ others) (keys ++ rest)
KeysOf-append no_items k = k
KeysOf-append (no_key h) k = no_key (KeysOf-append h k)
KeysOf-append (empty_key h) k = empty_key (KeysOf-append h k)
KeysOf-append (has_key key n h) k = has_key key n (KeysOf-append h k)

-- The keys of all pages, as the code collects them.
unfoldable all_keys : List (List (Option Text)) → List Text
unfolding item_keys
all_keys [] = []
all_keys (p ∷ ps) = item_keys p ++ all_keys ps

all_keys-KeysOf : (pages : List (List (Option Text))) → KeysOf (concat pages) (all_keys pages)
unfolding all_keys concat
all_keys-KeysOf [] = no_items
all_keys-KeysOf (p ∷ ps) = KeysOf-append (item_keys-KeysOf p) (all_keys-KeysOf ps)

module _ {Client : Type 0} (client : S3Client Client) (s : Client) (prefix : Text) where
  list_pages-Lists :
      {token : Option Text} {pages : List (List (Option Text))} (fuel : ℕ) (keys : List Text)
      → Lists client s prefix token pages
      → length pages ≤ fuel
      → list_pages client fuel prefix token keys s ≡ (ok (keys ++ all_keys pages), s)
  unfolding list_pages all_keys
  list_pages-Lists zero keys (last token page e f) h = absurd (omega arith)
  list_pages-Lists zero keys (more token page e f l) h = absurd (omega arith)
  list_pages-Lists (suc fuel) keys (last token page e f) h =
      rw (e, f, append-nil (item_keys page.keys))
  list_pages-Lists (suc fuel) keys (more token page {rest} e f l) h =
      let ih = list_pages-Lists fuel (keys ++ item_keys page.keys) l (omega arith) in
      rw (e, f) (ih ∙ ap (λ k. (ok k, s)) (append_assoc keys (item_keys page.keys) (all_keys rest)))

  -- A listing of as many pages as the bound allows, or fewer, ends, collects the keys of all pages
  -- in order, leaving out items with no key or an empty one, and changes nothing.
  pub list_keys-Lists :
      {pages : List (List (Option Text))} (bound : ℕ)
      → Lists client s prefix none pages
      → length pages ≤ bound
      → (keys : List Text) × KeysOf (concat pages) keys
        × ((s3_storage client bound).list_keys prefix s ≡ (ok keys, s))
  list_keys-Lists {pages} bound l h =
      (all_keys pages, all_keys-KeysOf pages, list_pages-Lists bound [] l h)
