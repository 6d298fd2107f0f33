-- ===== src/Text/Fields.antt =====
-- The comma-separated fields of the settings form: printed with strings.Join and read back by parseCSV of
-- global/settings.go they are the same.
use Prim.Native.Char.{Char}
use Prim.Native.String.{[], ◌∷◌, ◌++◌}
use text.Mathlib.TextLemmas.{nil-append, cons-append}
use croissant.Base.{
  Bool, true, false, not, ◌&&◌, List, String, All, map, filter, ◌≡◌, refl, ◌∙◌, ap, sym, arith,
  Bool-cases, inl, inr, ◌==◌, nat_eq, string_eq, eq_of_beq,
}
use croissant.Text.{
  is_blank, is_space, is_comma, trim_left, trim_right, put_before, trim_space, onto_first, split,
  join, keep_filled, fields, parse_csv,
}
use croissant.Text.Trim.{
  space_no_comma, blank_empty, trim_space_idem, trim_space-space, lacks_comma,
  trim_space-lacks_comma,
}

-- Spaces at the end of the whole text go with those of the last part.
abbrev put_first : Char → List String → List String
put_first c List.[] = List.[]
put_first c (List.◌∷◌ p ps) = List.◌∷◌ (put_before c p) ps

map-onto_first :
    (c : Char) (ps : List String)
    → map trim_right (onto_first c ps) ≡ put_first c (map trim_right ps)
unfolding trim_right
map-onto_first c List.[] = refl
map-onto_first c (List.◌∷◌ p ps) = refl

comma_stays : (c : Char) (blank : Bool) → is_comma c ≡ true → (blank && is_space c) ≡ false
comma_stays c blank comma = elim (Bool-cases (is_space c)) [
  | inl space ↦ cc (comma, space_no_comma c space)
  | inr other ↦ ground (arith, other)
]

split-trim_right : (s : String) → map trim_right (split (trim_right s)) ≡ map trim_right (split s)
unfolding trim_right split
split-trim_right [] = refl
split-trim_right (c ∷ s) = elim (Bool-cases (is_comma c)) [
  | inl comma ↦
      let stays : (is_blank (trim_right s) && is_space c) ≡ false =
        comma_stays c (is_blank (trim_right s)) comma in
      rw (stays, put_before) (rw comma (ap (List.◌∷◌ []) (split-trim_right s)))
  | inr other ↦ elim (Bool-cases (is_blank (trim_right s) && is_space c)) [
    | inl ends ↦
        let none_left =
          ap (λ t. map trim_right (split t)) (blank_empty (trim_right s) (ground (arith, ends))) in
        let space : is_space c ≡ true = ground (arith, ends) in
        let one_part : put_first c (List.◌∷◌ [] List.[]) ≡ List.◌∷◌ [] List.[] = rw space refl in
        rw (ends, put_before)
          (rw other (
            sym (
              map-onto_first c (split s)
              ∙ ap (put_first c) (sym (split-trim_right s) ∙ none_left)
              ∙ one_part)))
    | inr stays ↦
        rw (stays, put_before)
          (rw other (
            map-onto_first c (split (trim_right s))
            ∙ ap (put_first c) (split-trim_right s)
            ∙ sym (map-onto_first c (split s))))
  ]
]

map-trim_space : (ps : List String) → map trim_space ps ≡ map trim_left (map trim_right ps)
unfolding trim_space
map-trim_space List.[] = refl
map-trim_space (List.◌∷◌ p ps) = ap (List.◌∷◌ (trim_space p)) (map-trim_space ps)

-- trim_space of each part sees only what trim_right leaves of it.
keep_filled-trim_right :
    (ps qs : List String) → map trim_right ps ≡ map trim_right qs → keep_filled ps ≡ keep_filled qs
unfolding trim_space
keep_filled-trim_right ps qs h =
    ap (filter (λ p. not (is_blank p)))
      (map-trim_space ps ∙ ap (map trim_left) h ∙ sym (map-trim_space qs))

fields-trim_right : (s : String) → fields (trim_right s) ≡ fields s
unfolding fields
fields-trim_right s = keep_filled-trim_right (split (trim_right s)) (split s) (split-trim_right s)

keep_filled-onto_first :
    (c : Char) (ps : List String)
    → is_space c ≡ true
    → keep_filled (onto_first c ps) ≡ keep_filled ps
keep_filled-onto_first c List.[] space = refl
keep_filled-onto_first c (List.◌∷◌ p ps) space = rw (trim_space-space c p space) refl

fields-space : (c : Char) (s : String) → is_space c ≡ true → fields (c ∷ s) ≡ fields s
unfolding fields split
fields-space c s space = rw (space_no_comma c space) (keep_filled-onto_first c (split s) space)

fields-trim_left : (s : String) → fields (trim_left s) ≡ fields s
unfolding trim_left
fields-trim_left [] = refl
fields-trim_left (c ∷ s) = elim (Bool-cases (is_space c)) [
  | inl space ↦ rw space (fields-trim_left s ∙ sym (fields-space c s space))
  | inr other ↦ rw other refl
]

-- parseCSV need not trim the whole value first.
parse_csv-fields : (value : String) → parse_csv value ≡ fields value
unfolding parse_csv
parse_csv-fields value =
    let trimmed = trim_space value in
    let same = fields-trim_left (trim_right value) ∙ fields-trim_right value in
    elim (Bool-cases (trimmed == "")) [
      | inl empty ↦
          rw (empty, parse_csv)
            (sym (ap fields (eq_of_beq trimmed "" empty)) ∙ unfold trim_space in same)
      | inr filled ↦ rw (filled, parse_csv) (unfold trim_space in same)
    ]

-- What parseCSV makes: no spaces at the ends, something in it, no comma.
record IsField (p : String) : Type 0 where
  trimmed : trim_space p ≡ p
  filled : is_blank p ≡ false
  no_comma : lacks_comma p ≡ true

onto_first-lacks_comma :
    (c : Char) (ps : List String)
    → is_comma c ≡ false
    → All (λ p. lacks_comma p ≡ true) ps
    → All (λ p. lacks_comma p ≡ true) (onto_first c ps)
unfolding lacks_comma
onto_first-lacks_comma c List.[] other h = tt
onto_first-lacks_comma c (List.◌∷◌ p ps) other (h, hs) = (rw other h, hs)

split-lacks_comma : (s : String) → All (λ p. lacks_comma p ≡ true) (split s)
unfolding split lacks_comma
split-lacks_comma [] = (refl, tt)
split-lacks_comma (c ∷ s) = elim (Bool-cases (is_comma c)) [
  | inl comma ↦ rw comma (refl, split-lacks_comma s)
  | inr other ↦ rw other (onto_first-lacks_comma c (split s) other (split-lacks_comma s))
]

keep_filled-IsField :
    (ps : List String) → All (λ p. lacks_comma p ≡ true) ps → All IsField (keep_filled ps)
keep_filled-IsField List.[] h = tt
keep_filled-IsField (List.◌∷◌ p ps) (h, hs) = elim (Bool-cases (is_blank (trim_space p))) [
  | inl blank ↦ rw blank (keep_filled-IsField ps hs)
  | inr filled ↦ rw filled (
    record { trimmed = trim_space_idem p; filled = filled; no_comma = trim_space-lacks_comma p h },
    keep_filled-IsField ps hs,
  )
]

one-append : (c : Char) (s : String) → (c ∷ []) ++ s ≡ c ∷ s
one-append c s = cons-append c [] s ∙ ap (◌∷◌ c) (nil-append s)

split-append :
    (p rest : String) → lacks_comma p ≡ true → split (p ++ "," ++ rest) ≡ List.◌∷◌ p (split rest)
unfolding split lacks_comma
split-append [] rest h =
    ap split (nil-append ("," ++ rest) ∙ cons-append _ [] rest ∙ ap (◌∷◌ ",") (nil-append rest))
split-append (c ∷ p) rest h = elim (Bool-cases (is_comma c)) [
  | inl comma ↦ cc (rw comma at h)
  | inr other ↦
      ap split (cons-append c p ("," ++ rest))
      ∙ rw other (ap (onto_first c) (split-append p rest (rw other at h)))
]

split-one : (p : String) → lacks_comma p ≡ true → split p ≡ List.◌∷◌ p List.[]
unfolding split lacks_comma
split-one [] h = refl
split-one (c ∷ p) h = elim (Bool-cases (is_comma c)) [
  | inl comma ↦ cc (rw comma at h)
  | inr other ↦ rw other (ap (onto_first c) (split-one p (rw other at h)))
]

fields-join : (ps : List String) → All IsField ps → fields (join ps) ≡ ps
unfolding fields join
fields-join List.[] h = unfold split trim_space trim_left trim_right in refl
fields-join (List.◌∷◌ p List.[]) (f, _) = rw (split-one p f.no_comma, f.trimmed, f.filled) refl
fields-join (List.◌∷◌ p (List.◌∷◌ q ps)) (f, fs) =
    let more = join (List.◌∷◌ q ps) in
    let comma : ", " ++ more ≡ "," ++ (" " ++ more) =
      cons-append "," " " more ∙ sym (one-append "," (" " ++ more)) in
    let parts : split (p ++ (", " ++ more)) ≡ List.◌∷◌ p (split (" " ++ more)) =
      ap (λ t. split (p ++ t)) comma ∙ split-append p (" " ++ more) f.no_comma in
    let after : fields (" " ++ more) ≡ List.◌∷◌ q ps =
      ap fields (one-append " " more)
      ∙ fields-space " " more (unfold is_space in refl)
      ∙ fields-join (List.◌∷◌ q ps) fs in
    ap keep_filled parts ∙ rw (f.trimmed, f.filled) (ap (List.◌∷◌ p) after)

-- A list of relays that the form was read into is printed into the form again as a text that is read back
-- as the same list, whatever was typed at first: saving an unchanged form keeps the lists.
pub parse_csv-join : (typed : String) → parse_csv (join (parse_csv typed)) ≡ parse_csv typed
parse_csv-join typed =
    parse_csv-fields (join (parse_csv typed))
    ∙ fields-join (parse_csv typed) (
        rw (parse_csv-fields typed)
          (unfold fields in keep_filled-IsField (split typed) (split-lacks_comma typed)))
