-- ===== src/Resolver.antt =====
-- spclient/context_resolver.go: the resolver that hands out the pages of a context.
-- The answers of the backend are a parameter, by the number of requests made before.
pub mod New
pub mod Pages
pub mod Create
mod Tests
use go_librespot_termux.Prelude.{
  ℕ, zero, suc, ◌+◌, ◌-◌, ◌*◌, ◌^◌, Bool, true, false, not, ◌&&◌, ◌||◌, List, [], ◌∷◌, ◌++◌, map,
  Option, none, some, ltb, leb, ◌==◌, if◌then◌else◌, length, get_elem?, set, Text, codes, text_eq,
  Run, ok, panic, out_of_fuel, ◌>>=◌, or_panic,
}
use go_librespot_termux.Ids.{type_unknown, strip}
use go_librespot_termux.Ids.Context.{context_uri_type, one_of, infer_type_from_context}
use go_librespot_termux.Tracks.Track.{Metadata, ContextTrack, entries_set, meta_set}

pub record ContextPage : Type 0 where
  pub tracks : List ContextTrack
  pub page_url : Text
  pub next_page_url : Text

pub record Context : Type 0 where
  pub uri : Text
  pub url : Text
  pub loading : Bool
  pub metadata : Metadata
  pub pages : List ContextPage

unfoldable pub has_prefix : Text → Text → Bool
unfolding strip
has_prefix s p = elim (strip p s) [ none ↦ false | some rest ↦ true ]

unfoldable pub digits : ℕ → Text → Option ℕ
digits acc [] = some acc
digits acc (c ∷ s) =
    let rest = digits (acc * 10 + (c - b'0')) s in if leb b'0' c && leb c b'9' then rest else none

unfoldable pub unsigned : Text → Option ℕ
unfolding digits
unsigned [] = none
unsigned (c ∷ s) = digits 0 (c ∷ s)

-- `strconv.Atoi`: none for an error and for a number below 0.
unfoldable pub atoi : Text → Option ℕ
unfolding unsigned
atoi [] = none
atoi (c ∷ s) =
    let below : ℕ → Option ℕ → Option ℕ =
      λ k o. elim o [ none ↦ none | some n ↦ if ltb n k then some n else none ] in
    if c == b'-'
    then below 1 (unsigned s)
    else if c == b'+'
    then below (2 ^ 63) (unsigned s)
    else below (2 ^ 63) (unsigned (c ∷ s))

unfoldable pub entry : Text → List (Text × Text) → Option Text
entry k [] = none
entry k ((j, v) ∷ m) = if text_eq j k then some v else entry k m

unfoldable pub expected_number_of_tracks : Metadata → Option ℕ
unfolding entry atoi
expected_number_of_tracks none = none
expected_number_of_tracks (some m) = elim (entry (codes "playlist_number_of_tracks") m) [
  | none ↦ none
  | some v ↦ atoi v
]

-- Whether the pages hold so many tracks, or a page names one after it.
unfoldable pub pages_complete : ℕ → ℕ → List ContextPage → Bool
pages_complete expected total [] = expected == total
pages_complete expected total (p ∷ ps) =
    ltb 0 (length p.next_page_url) || pages_complete expected (total + length p.tracks) ps

unfoldable pub is_tracks_complete : Context → Bool
unfolding expected_number_of_tracks pages_complete
is_tracks_complete c = elim (expected_number_of_tracks c.metadata) [
  | none ↦ true
  | some n ↦ pages_complete n 0 c.pages
]

unfoldable pub any_resolvable : List ContextPage → Bool
any_resolvable [] = false
any_resolvable (p ∷ ps) =
    ltb 0 (length p.tracks)
    || ltb 0 (length p.page_url)
    || ltb 0 (length p.next_page_url)
    || any_resolvable ps

unfoldable pub has_resolvable_pages : Context → Bool
unfolding any_resolvable
has_resolvable_pages c = any_resolvable c.pages

unfoldable pub is_item_uri : Text → Bool
unfolding has_prefix
is_item_uri uri =
    one_of (context_uri_type uri) (codes "track" ∷ codes "episode" ∷ codes "chapter" ∷ [])
    && not (has_prefix uri (codes "spotify:user:"))

pub data HmAnswer : Type 0 where
  request_failed : HmAnswer
  answer : ℕ → Option ContextPage → HmAnswer

-- The requests. A context is none on an error; the body of an answer is none if it cannot be decoded.
pub record Backend : Type 0 where
  pub context_resolve : ℕ → Text → Option Context
  pub context_resolve_url : ℕ → Text → Option Context
  pub playlist_page : ℕ → Text → Option ContextPage
  pub request_hm : ℕ → Text → HmAnswer

pub data PageError : Type 0 where
  eof : PageError
  load_failed : PageError
  invalid_page_url : Text → PageError
  invalid_status : ℕ → PageError
  empty_without_url : PageError

pub data Loaded : Type 0 where
  page : ContextPage → Loaded
  load_err : PageError → Loaded

-- `typ` and the context; `calls` counts the requests.
pub record ContextResolver : Type 0 where
  pub typ : Text
  pub ctx : Context
  pub calls : ℕ

abbrev pub playlist_page_url_prefix : Text
playlist_page_url_prefix = codes "hm://playlist/v2/playlist/"

unfoldable pub hm_page : HmAnswer → Loaded
hm_page request_failed = load_err load_failed
hm_page (answer status body) =
    let decoded = elim body as (λ _. Loaded) [ none ↦ load_err load_failed | some p ↦ page p ] in
    if status == 404
    then load_err eof
    else if status == 200
    then decoded
    else load_err (invalid_status status)

unfoldable pub playlist_loaded : Option ContextPage → Loaded
playlist_loaded none = load_err load_failed
playlist_loaded (some p) = page p

pub data PageResult : Type 0 where
  tracks_of : List ContextTrack → PageResult
  page_err : PageError → PageResult

abbrev pub with_pages : List ContextPage → ℕ → ContextResolver → ContextResolver
with_pages ps calls r = record r { ctx = record r.ctx { pages = ps }; calls = calls }

unfoldable pub last_page : List ContextPage → Option ContextPage
last_page [] = none
last_page (p ∷ []) = some p
last_page (p ∷ q ∷ ps) = last_page (q ∷ ps)

module _ (B : Backend) where
  -- `loadPage`, with the number of requests afterwards.
  unfoldable pub load_page : Text → ℕ → Loaded × ℕ
  unfolding has_prefix hm_page playlist_loaded
  load_page url calls =
      if not (has_prefix url (codes "hm://"))
      then (load_err (invalid_page_url url), calls)
      else if has_prefix url playlist_page_url_prefix
      then (playlist_loaded (B.playlist_page calls url), calls + 1)
      else (hm_page (B.request_hm calls url), calls + 1)

  -- The loop of `Page`: the error that ends it, if there is one. A round adds a page.
  unfoldable pub fetch_loop : ℕ → ℕ → ContextResolver → Run (ContextResolver × Option PageError)
  unfolding load_page last_page
  fetch_loop zero idx r = if ltb idx (length r.ctx.pages) then ok (r, none) else out_of_fuel
  fetch_loop (suc f) idx r =
      let more = elim (last_page r.ctx.pages) as (λ _. Run (ContextResolver × Option PageError)) [
        | none ↦ ok (r, some eof)
        | some p ↦
            if length p.next_page_url == 0
            then ok (r, some eof)
            else (let (l, calls) = load_page p.next_page_url r.calls in
                elim l [
                  | load_err e ↦ ok (with_pages r.ctx.pages calls r, some e)
                  | page q ↦ fetch_loop f idx (with_pages (r.ctx.pages ++ q ∷ []) calls r)
                ])
      ] in
      if ltb idx (length r.ctx.pages) then ok (r, none) else more

  -- The page of the index, which is loaded if it is empty.
  unfoldable pub read_page : ℕ → ContextPage → ContextResolver → ContextResolver × PageResult
  unfolding load_page
  read_page idx p r =
      let (l, calls) = load_page p.page_url r.calls in
      if ltb 0 (length p.tracks)
      then (r, tracks_of p.tracks)
      else if length p.page_url == 0
      then (r, page_err empty_without_url)
      else elim l [
        | load_err e ↦ (with_pages r.ctx.pages calls r, page_err e)
        | page q ↦ (with_pages (set r.ctx.pages idx q) calls r, tracks_of q.tracks)
      ]

  -- `Page`, for an index that is not negative. A round takes a page, so the index is enough fuel.
  unfoldable pub page_at : ℕ → ContextResolver → Run (ContextResolver × PageResult)
  unfolding fetch_loop read_page
  page_at idx r = fetch_loop (suc idx) idx r >>= λ (q, e). elim e [
    | some err ↦ ok (q, page_err err)
    | none ↦ or_panic (get_elem? q.ctx.pages idx) >>= λ p. ok (read_page idx p q)
  ]
