-- ===== src/Uploads/Devices.antt =====
-- The names that Windows reserves for devices, described by their letters.
use mathlib.Core.List.Memᴰ.{head, tail}
use doc_manage_and_generatio.Prelude.{
  ℕ, List, [], ◌∷◌, ◌+◌, ◌≤◌, true, String, ◌≡◌, refl, sym, subst, arith, Memᴰ,
}
use doc_manage_and_generatio.Text.{codes, is_one_of, same_codes}
use doc_manage_and_generatio.Text.Chars.{is_one_of-mem}
use doc_manage_and_generatio.Uploads.{windows_reserved_names}

-- CON, PRN, AUX, NUL, or COM or LPT with a digit from 1 to 9, by code points
pub data IsDevice : List ℕ → Type 0 where
  console : IsDevice (67 ∷ 79 ∷ 78 ∷ [])
  printer : IsDevice (80 ∷ 82 ∷ 78 ∷ [])
  auxiliary : IsDevice (65 ∷ 85 ∷ 88 ∷ [])
  null_device : IsDevice (78 ∷ 85 ∷ 76 ∷ [])
  serial : (d : ℕ) → 1 ≤ d → d ≤ 9 → IsDevice (67 ∷ 79 ∷ 77 ∷ (d + 48) ∷ [])
  parallel : (d : ℕ) → 1 ≤ d → d ≤ 9 → IsDevice (76 ∷ 80 ∷ 84 ∷ (d + 48) ∷ [])

-- every one of the names is a device's
AreDevices : List String → Type 0
AreDevices [] = Unit
AreDevices (n ∷ names) = IsDevice (codes n) × AreDevices names

mem-AreDevices :
    (names : List String) {n : String} → AreDevices names → Memᴰ n names → IsDevice (codes n)
unfolding AreDevices
mem-AreDevices [] all m = elim m [ ]
mem-AreDevices (x ∷ names) (d, all) (head e) = subst (λ n. IsDevice (codes n)) (sym e) d
mem-AreDevices (x ∷ names) (d, all) (tail m) = mem-AreDevices names all m

infixr 4 ◌&◌
abbrev ◌&◌ : {A B : Type 0} → A → B → A × B
a & b = (a, b)

reserved-AreDevices : AreDevices windows_reserved_names
unfolding AreDevices windows_reserved_names codes
reserved-AreDevices =
    console
    & printer
    & auxiliary
    & null_device
    & serial 1 (ground arith) (ground arith)
    & serial 2 (ground arith) (ground arith)
    & serial 3 (ground arith) (ground arith)
    & serial 4 (ground arith) (ground arith)
    & serial 5 (ground arith) (ground arith)
    & serial 6 (ground arith) (ground arith)
    & serial 7 (ground arith) (ground arith)
    & serial 8 (ground arith) (ground arith)
    & serial 9 (ground arith) (ground arith)
    & parallel 1 (ground arith) (ground arith)
    & parallel 2 (ground arith) (ground arith)
    & parallel 3 (ground arith) (ground arith)
    & parallel 4 (ground arith) (ground arith)
    & parallel 5 (ground arith) (ground arith)
    & parallel 6 (ground arith) (ground arith)
    & parallel 7 (ground arith) (ground arith)
    & parallel 8 (ground arith) (ground arith)
    & parallel 9 (ground arith) (ground arith)
    & tt

pub IsDevice-reserved :
    {text : List ℕ} → IsDevice text → is_one_of text windows_reserved_names ≡ true
unfolding windows_reserved_names codes is_one_of same_codes
IsDevice-reserved console = refl
IsDevice-reserved printer = refl
IsDevice-reserved auxiliary = refl
IsDevice-reserved null_device = refl
IsDevice-reserved (serial d l h) = ground arith
IsDevice-reserved (parallel d l h) = ground arith

pub is_one_of-IsDevice :
    {text : List ℕ} → is_one_of text windows_reserved_names ≡ true → IsDevice text
is_one_of-IsDevice {text} h =
    let (n, m, e) = is_one_of-mem text windows_reserved_names h in
    subst IsDevice (sym e) (mem-AreDevices windows_reserved_names reserved-AreDevices m)
