-- ===== src/Router/Tenant.antt =====
-- router/mod.rs: `normalize_tenant`.
use ida_mcp.Base.{
  ◌≡◌, refl, ap, ◌∙◌, inl, inr, false, Option, none, some, [], ◌∷◌, Text, text, is_empty, trim,
  Bool-cases, if◌then◌else◌, arith,
}
use ida_mcp.Base.Str.{is_whitespace, trim_start, trim_end}

abbrev pub or_default : Text → Text
or_default s = if is_empty s then text "default" else s

unfoldable pub normalize_tenant : Option Text → Text
normalize_tenant none = text "default"
normalize_tenant (some t) = or_default (trim t)

-- Nothing, or a text that begins with no whitespace.
abbrev IsTrimmedStart : Text → Type 0
IsTrimmedStart [] = Unit
IsTrimmedStart (c ∷ cs) = is_whitespace c ≡ false

trim_start-IsTrimmedStart : (s : Text) → IsTrimmedStart (trim_start s)
unfolding trim_start
trim_start-IsTrimmedStart [] = tt
trim_start-IsTrimmedStart (c ∷ cs) = elim (Bool-cases (is_whitespace c)) [
  | inl space ↦ rw space (trim_start-IsTrimmedStart cs)
  | inr other ↦ rw other other
]

trim_start_of_trimmed : (s : Text) → IsTrimmedStart s → trim_start s ≡ s
unfolding trim_start
trim_start_of_trimmed [] h = refl
trim_start_of_trimmed (c ∷ cs) h = rw h

trim_end-IsTrimmedStart : (s : Text) → IsTrimmedStart s → IsTrimmedStart (trim_end s)
unfolding trim_end
trim_end-IsTrimmedStart [] h = tt
trim_end-IsTrimmedStart (c ∷ cs) h = rw h h

trim_end-trim_end : (s : Text) → trim_end (trim_end s) ≡ trim_end s
unfolding trim_end
trim_end-trim_end [] = refl
trim_end-trim_end (c ∷ cs) = ground (arith, trim_end-trim_end cs)

trim-trim : (s : Text) → trim (trim s) ≡ trim s
unfolding trim
trim-trim s =
    ap trim_end (trim_start_of_trimmed _ (trim_end-IsTrimmedStart _ (trim_start-IsTrimmedStart s)))
    ∙ trim_end-trim_end (trim_start s)

trim-default : trim (text "default") ≡ text "default"
unfolding trim is_whitespace
trim-default = refl

-- A normal tenant name is left as it is.
pub normalize_tenant-normalize_tenant :
    (t : Option Text) → normalize_tenant (some (normalize_tenant t)) ≡ normalize_tenant t
unfolding normalize_tenant
normalize_tenant-normalize_tenant none = ap or_default trim-default
normalize_tenant-normalize_tenant (some t) = ground (arith, trim-trim t, trim-default)
