-- ===== src/Verdict.antt =====
-- What the relay's checks answer: the pair (reject bool, msg string) of reject_event.go, giftwrap.go
-- and state.go.
use croissant.Base.{String, ◌≡◌, refl, ◌⊎◌, inl, inr}

pub data Verdict : Type 0 where
  accept : Verdict
  reject : String → Verdict

-- One check after another: the first that rejects answers.
abbrev pub or_else : Verdict → Verdict → Verdict
or_else accept v = v
or_else (reject msg) v = reject msg

pub Verdict-cases : (v : Verdict) → (v ≡ accept) ⊎ ((msg : String) × (v ≡ reject msg))
Verdict-cases accept = inl refl
Verdict-cases (reject msg) = inr (msg, refl)
