-- ===== src/Text/Strip.antt =====
-- `strip` is idempotent.
use Prim.Native.String.{[], ◌∷◌}
use doc_manage_and_generatio.Prelude.{String, ◌≡◌, refl, inl, inr, false, Char, code, Bool-cases}
use doc_manage_and_generatio.Text.{is_space, lstrip, rstrip, strip, keep_before}

rstrip-keep_before :
    (c : Char) (s : String) → rstrip s ≡ s → rstrip (keep_before c s) ≡ keep_before c s
unfolding rstrip
rstrip-keep_before c [] h = elim (Bool-cases (is_space (code c))) [
  | inl e ↦ rw e
  | inr e ↦ rw e (rw e)
]
rstrip-keep_before c (d ∷ s) h = rw h

rstrip_idem : (s : String) → rstrip (rstrip s) ≡ rstrip s
unfolding rstrip
rstrip_idem [] = refl
rstrip_idem (c ∷ s) = rstrip-keep_before c (rstrip s) (rstrip_idem s)

lstrip-keep_before :
    (c : Char) (s : String) → is_space (code c) ≡ false → lstrip (keep_before c s) ≡ keep_before c s
unfolding lstrip keep_before
lstrip-keep_before c [] h = rw h (rw h)
lstrip-keep_before c (d ∷ s) h = rw h

lstrip-rstrip-lstrip : (s : String) → lstrip (rstrip (lstrip s)) ≡ rstrip (lstrip s)
unfolding lstrip rstrip
lstrip-rstrip-lstrip [] = refl
lstrip-rstrip-lstrip (c ∷ s) = elim (Bool-cases (is_space (code c))) [
  | inl e ↦ rw e (lstrip-rstrip-lstrip s)
  | inr e ↦ rw e (lstrip-keep_before c (rstrip s) e)
]

pub strip_idem : (s : String) → strip (strip s) ≡ strip s
unfolding strip
strip_idem s = rw lstrip-rstrip-lstrip (rstrip_idem (lstrip s))
