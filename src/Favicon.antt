-- ===== src/Favicon.antt =====
-- favicon.go: the relay's icon, fetched once and kept, or else the logo. The cache is used by one request
-- at a time, under `mu`. Parameters: net/http, DetectContentType, and the embedded logo, where it can
-- be read. A byte is a number.
pub mod Cached
use croissant.Base.{
  ℕ, zero, suc, Bool, true, false, not, ◌&&◌, ◌||◌, Option, none, some, List, [], ◌∷◌, String,
  is_empty, ltb, leb, ◌==◌, nat_eq, string_eq, if◌then◌else◌,
}

abbrev pub Bytes : Type 0
Bytes = List ℕ

abbrev pub max_favicon_size : ℕ
max_favicon_size = 2_097_152

-- What comes of a request: a none is an error of NewRequest or Do; the body is a none where reading it fails.
pub record Answer : Type 0 where
  pub status : ℕ
  pub body : Option Bytes
  pub content_type : String

-- faviconCache, and the embedded logo's.
pub record FaviconCache : Type 0 where
  pub url : String
  pub bytes : Bytes
  pub content_type : String
  pub logo_bytes : Bytes
  pub logo_content_type : String

pub data Reply : Type 0 where
  not_found : Reply
  icon : Bytes → String → Reply

-- io.LimitReader
unfoldable pub limit : ℕ → Bytes → Bytes
limit zero s = []
limit (suc n) [] = []
limit (suc n) (b ∷ s) = b ∷ limit n s

module _ {Net : Type 0} (request : Net → String → Net × Option Answer) (detect : Bytes → String)
    (logo_file : Option Bytes) where
  abbrev pub typed : Bytes → String → Bytes × String
  typed body content_type = (body, if content_type == "" then detect body else content_type)

  abbrev pub read_body : String → Option Bytes → Option (Bytes × String)
  read_body content_type none = none
  read_body content_type (some body) =
      let read = limit max_favicon_size body in
      if is_empty read then none else some (typed read content_type)

  abbrev pub read_answer : Option Answer → Option (Bytes × String)
  read_answer none = none
  read_answer (some answer) =
      if ltb answer.status 200 || leb 300 answer.status
      then none
      else read_body answer.content_type answer.body

  unfoldable pub fetch : Net → String → Net × Option (Bytes × String)
  unfolding limit
  fetch net icon_url = let (net', answer) = request net icon_url in (net', read_answer answer)

  abbrev pub with_logo : FaviconCache → Option Bytes → FaviconCache × (Bytes × String)
  with_logo c none = (c, ([], ""))
  with_logo c (some file) =
      (record c { logo_bytes = file; logo_content_type = detect file }, (file, detect file))

  unfoldable pub logo : FaviconCache → FaviconCache × (Bytes × String)
  logo c =
      if not (is_empty c.logo_bytes)
      then (c, (c.logo_bytes, c.logo_content_type))
      else with_logo c logo_file

  abbrev pub after_fetch :
      FaviconCache
      → String
      → Net × Option (Bytes × String)
      → (FaviconCache × Net) × (Bytes × String)
  after_fetch c icon_url (net, none) = let (c', shown) = logo c in ((c', net), shown)
  after_fetch c icon_url (net, some (bytes, content_type)) = (
    (record c { url = icon_url; bytes = bytes; content_type = content_type }, net),
    (bytes, content_type),
  )

  -- faviconCache.get
  unfoldable pub get : FaviconCache → Net → String → (FaviconCache × Net) × (Bytes × String)
  unfolding fetch logo
  get c net icon_url =
      if icon_url == ""
      then (let (c', shown) = logo c in ((c', net), shown))
      else if icon_url == c.url && not (is_empty c.bytes)
      then ((c, net), (c.bytes, c.content_type))
      else after_fetch c icon_url (fetch net icon_url)

  abbrev pub reply_with : (FaviconCache × Net) × (Bytes × String) → (FaviconCache × Net) × Reply
  reply_with (after, (bytes, content_type)) =
      (after, if is_empty bytes then not_found else icon bytes content_type)

  unfoldable pub favicon_handler : FaviconCache → Net → String → (FaviconCache × Net) × Reply
  unfolding get
  favicon_handler c net relay_icon = reply_with (get c net relay_icon)
