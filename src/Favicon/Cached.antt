-- ===== src/Favicon/Cached.antt =====
-- An icon that favicon.go has fetched is fetched once and is not larger than its limit.
use croissant.Base.{
  ℕ, zero, suc, ◌≤◌, false, not, ◌&&◌, ◌||◌, Option, none, some, [], ◌∷◌, String, length, is_empty,
  ltb, leb, ◌==◌, nat_eq, string_eq, ◌≡◌, refl, ap, subst, arith, inl, inr, Bool-cases, eq_self,
}
use croissant.Favicon.{
  Bytes, max_favicon_size, Answer, FaviconCache, limit, read_body, read_answer, fetch, get,
}

length-limit : (n : ℕ) (s : Bytes) → length (limit n s) ≤ n
unfolding limit
length-limit zero s = omega arith
length-limit (suc n) [] = omega arith
length-limit (suc n) (b ∷ s) = omega (arith, length-limit n s)

module _ {Net : Type 0} (request : Net → String → Net × Option Answer) (detect : Bytes → String)
    (logo_file : Option Bytes) where
  -- What is fetched is not empty, and within the limit.
  abbrev IsIcon : Bytes → Type 0
  IsIcon bytes = (is_empty bytes ≡ false) × (length bytes ≤ max_favicon_size)

  read_body-IsIcon :
      (kind : String) (body : Option Bytes) {bytes : Bytes} {content_type : String}
      → read_body request detect logo_file kind body ≡ some (bytes, content_type)
      → IsIcon bytes
  read_body-IsIcon kind none h = cc
  read_body-IsIcon kind (some body) {bytes} h =
      elim (Bool-cases (is_empty (limit max_favicon_size body))) [
        | inl blank ↦ cc (rw blank at h)
        | inr filled ↦
            let same : limit max_favicon_size body ≡ bytes = cc (rw filled at h) in
            subst IsIcon same (filled, length-limit max_favicon_size body)
      ]

  read_answer-IsIcon :
      (answer : Option Answer) {bytes : Bytes} {content_type : String}
      → read_answer request detect logo_file answer ≡ some (bytes, content_type)
      → IsIcon bytes
  read_answer-IsIcon none h = cc
  read_answer-IsIcon (some answer) h =
      elim (Bool-cases (ltb answer.status 200 || leb 300 answer.status)) [
        | inl bad ↦ cc (rw bad at h)
        | inr good ↦ read_body-IsIcon answer.content_type answer.body (rw good at h)
      ]

  fetch-IsIcon :
      (net net' : Net) (icon_url : String) {bytes : Bytes} {content_type : String}
      → fetch request detect logo_file net icon_url ≡ (net', some (bytes, content_type))
      → IsIcon bytes
  unfolding fetch
  fetch-IsIcon net net' icon_url {bytes} {content_type} h =
      read_answer-IsIcon (request net icon_url).1 (ap (λ p. p.1) h)

  get_kept :
      (c : FaviconCache) (net : Net)
      → (c.url == "") ≡ false
      → is_empty c.bytes ≡ false
      → get request detect logo_file c net c.url ≡ ((c, net), (c.bytes, c.content_type))
  unfolding get
  get_kept c net named filled = rw (named, eq_self c.url, filled) refl

  -- An icon that is fetched is shown, is not empty and has at most 2^21 bytes; from then on it is shown
  -- from the cache, without a request.
  pub get_fetched :
      (c : FaviconCache) (net net' : Net) (icon_url : String) {bytes : Bytes}
      {content_type : String}
      → (icon_url == "") ≡ false
      → (icon_url == c.url && not (is_empty c.bytes)) ≡ false
      → fetch request detect logo_file net icon_url ≡ (net', some (bytes, content_type))
      → (c' : FaviconCache) × (get request detect logo_file c net icon_url
          ≡ ((c', net'), (bytes, content_type)))
        × (is_empty bytes ≡ false)
        × (length bytes ≤ max_favicon_size)
        × ((later : Net)
            → get request detect logo_file c' later icon_url ≡ ((c', later), (bytes, content_type)))
  unfolding get
  get_fetched c net net' icon_url {bytes} {content_type} named new fetched =
      let c' = record c { url = icon_url; bytes = bytes; content_type = content_type } in
      let (filled, small) = fetch-IsIcon net net' icon_url fetched in
      (c', rw (named, new, fetched) refl, filled, small, λ later. get_kept c' later named filled)
