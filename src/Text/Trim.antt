-- ===== src/Text/Trim.antt =====
-- strings.TrimSpace: it leaves no space at either end, and is done after one call.
use Prim.Native.Char.{Char}
use Prim.Native.String.{[], ◌∷◌}
use croissant.Base.{
  Bool, true, false, ◌&&◌, String, ◌≡◌, refl, ◌∙◌, ap, sym, arith, Bool-cases, inl, inr,
  if◌then◌else◌, nat_eq,
}
use croissant.Text.{is_blank, is_space, is_comma, trim_left, trim_right, put_before, trim_space}

pub space_no_comma : (c : Char) → is_space c ≡ true → is_comma c ≡ false
unfolding is_space is_comma
space_no_comma c h = ground (arith, h)

pub blank_empty : (s : String) → is_blank s ≡ true → s ≡ []
blank_empty [] h = refl
blank_empty (c ∷ s) h = cc

trim_right_idem : (s : String) → trim_right (trim_right s) ≡ trim_right s
unfolding trim_right
trim_right_idem [] = refl
trim_right_idem (c ∷ s) = elim (Bool-cases (is_blank (trim_right s) && is_space c)) [
  | inl ends ↦ rw (ends, put_before) refl
  | inr stays ↦ rw (stays, put_before) (rw (trim_right_idem s, stays, put_before) refl)
]

-- What a character before it says of the rest of a text with no space at its end.
trimmed_tail : (c : Char) (s : String) → trim_right (c ∷ s) ≡ c ∷ s → trim_right s ≡ s
unfolding trim_right
trimmed_tail c s h = elim (Bool-cases (is_blank (trim_right s) && is_space c)) [
  | inl ends ↦ cc (rw (ends, put_before) at h)
  | inr stays ↦ cc (rw (stays, put_before) at h)
]

trim_left_keeps : (s : String) → trim_right s ≡ s → trim_right (trim_left s) ≡ trim_left s
unfolding trim_left
trim_left_keeps [] h = h
trim_left_keeps (c ∷ s) h = elim (Bool-cases (is_space c)) [
  | inl space ↦ rw space (trim_left_keeps s (trimmed_tail c s h))
  | inr other ↦ rw other h
]

trim_left_idem : (s : String) → trim_left (trim_left s) ≡ trim_left s
unfolding trim_left
trim_left_idem [] = refl
trim_left_idem (c ∷ s) = elim (Bool-cases (is_space c)) [
  | inl space ↦ rw space (trim_left_idem s)
  | inr other ↦ rw other (rw other refl)
]

pub trim_space_idem : (s : String) → trim_space (trim_space s) ≡ trim_space s
unfolding trim_space
trim_space_idem s =
    ap trim_left (trim_left_keeps (trim_right s) (trim_right_idem s))
    ∙ trim_left_idem (trim_right s)

-- A space in front makes no difference.
pub trim_space-space :
    (c : Char) (s : String) → is_space c ≡ true → trim_space (c ∷ s) ≡ trim_space s
unfolding trim_space trim_left trim_right
trim_space-space c s space = elim (Bool-cases (is_blank (trim_right s))) [
  | inl ends ↦ rw (ends, space, put_before) (ap trim_left (sym (blank_empty (trim_right s) ends)))
  | inr stays ↦ rw (stays, put_before) (rw space refl)
]

-- No comma in the text.
unfoldable pub lacks_comma : String → Bool
lacks_comma [] = true
lacks_comma (c ∷ s) = if is_comma c then false else lacks_comma s

trim_left-lacks_comma : (s : String) → lacks_comma s ≡ true → lacks_comma (trim_left s) ≡ true
unfolding trim_left lacks_comma
trim_left-lacks_comma [] h = refl
trim_left-lacks_comma (c ∷ s) h = elim (Bool-cases (is_space c)) [
  | inl space ↦ rw space (trim_left-lacks_comma s (ground (arith, h)))
  | inr other ↦ rw other h
]

trim_right-lacks_comma : (s : String) → lacks_comma s ≡ true → lacks_comma (trim_right s) ≡ true
unfolding trim_right lacks_comma
trim_right-lacks_comma [] h = refl
trim_right-lacks_comma (c ∷ s) h = elim (Bool-cases (is_blank (trim_right s) && is_space c)) [
  | inl ends ↦ rw (ends, put_before) refl
  | inr stays ↦ rw (stays, put_before) (ground (arith, h, trim_right-lacks_comma s))
]

pub trim_space-lacks_comma : (s : String) → lacks_comma s ≡ true → lacks_comma (trim_space s) ≡ true
unfolding trim_space
trim_space-lacks_comma s h = trim_left-lacks_comma (trim_right s) (trim_right-lacks_comma s h)
