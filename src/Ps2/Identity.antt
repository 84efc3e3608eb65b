-- ===== src/Ps2/Identity.antt =====
-- src/driver/ps2.c, from the identity of a device to its type, kind and name.
use drewos.Base.{
  ℕ, ◌/◌, ◌^◌, ◌≡◌, arith, ◌==◌, ◌⊎◌, if◌then◌else◌, List, [], ◌∷◌, Bool, false, ◌||◌, codes,
}

-- `device_kind_t`.
pub data DeviceKind : Type 0 where
  keyboard mouse unknown : DeviceKind

-- `device_type_t`.
pub data DeviceType : Type 0 where
  kbd_at mouse_ps2 mouse_scroll_wheel mouse_5button kbd_mf2 kbd_short kbd_n97 : DeviceType
  kbd_122key kbd_jpn_g kbd_jpn_p kbd_jpn_a kbd_ncd_sun dev_unknown : DeviceType

unfoldable pub get_device_kind : DeviceType → DeviceKind
get_device_kind mouse_ps2 = mouse
get_device_kind mouse_scroll_wheel = mouse
get_device_kind mouse_5button = mouse
get_device_kind kbd_mf2 = keyboard
get_device_kind kbd_short = keyboard
get_device_kind kbd_n97 = keyboard
get_device_kind kbd_122key = keyboard
get_device_kind kbd_jpn_g = keyboard
get_device_kind kbd_jpn_p = keyboard
get_device_kind kbd_jpn_a = keyboard
get_device_kind kbd_ncd_sun = keyboard
get_device_kind _ = unknown

-- The labels of the `switch`, in its order.
unfoldable pub get_device_type : ℕ → DeviceType
get_device_type device_id =
    if device_id == 0
    then mouse_ps2
    else if device_id == 0x03
    then mouse_scroll_wheel
    else if device_id == 0x04
    then mouse_5button
    else if device_id == 0xab83
    then kbd_mf2
    else if device_id == 0xabc1
    then kbd_mf2
    else if device_id == 0xab84
    then kbd_short
    else if device_id == 0xab85
    then kbd_n97
    else if device_id == 0xab86
    then kbd_122key
    else if device_id == 0xab90
    then kbd_jpn_g
    else if device_id == 0xab91
    then kbd_jpn_p
    else if device_id == 0xab92
    then kbd_jpn_a
    else if device_id == 0xaca1
    then kbd_ncd_sun
    else dev_unknown

unfoldable pub get_device_type_str : DeviceType → List ℕ
get_device_type_str kbd_at = codes "Ancient AT keyboard"
get_device_type_str mouse_ps2 = codes "Standard PS/2 mouse"
get_device_type_str mouse_scroll_wheel = codes "Mouse with scroll wheel"
get_device_type_str mouse_5button = codes "5-button mouse"
get_device_type_str kbd_mf2 = codes "MF2 keyboard"
get_device_type_str kbd_short = codes "Short keyboard"
get_device_type_str kbd_n97 = codes "NCD N-97 keyboard, or 122-Key host connect(ed) keyboard"
get_device_type_str kbd_122key = codes "122-key keyboard"
get_device_type_str kbd_jpn_g = codes "Japanese \"G\" keyboard"
get_device_type_str kbd_jpn_p = codes "Japanese \"P\" keyboard"
get_device_type_str kbd_jpn_a = codes "Japanese \"A\" keyboard"
get_device_type_str kbd_ncd_sun = codes "NCD Sun layout keyboard"
get_device_type_str dev_unknown = codes "Unknown/unrecognised device"

-- A device that is taken for a keyboard has an identity of two bytes, the first of which is 0xab or
-- 0xac: no identity of a single byte makes a keyboard.
keyboard_bytes :
    (device_id : ℕ)
    → get_device_kind (get_device_type device_id) ≡ keyboard
    → (device_id / 2 ^ 8 ≡ 0xab) ⊎ (device_id / 2 ^ 8 ≡ 0xac)
unfolding get_device_kind get_device_type
keyboard_bytes device_id h = ground arith

-- The identities of the keyboards and of the mice that are known.
abbrev pub keyboard_ids : List ℕ
keyboard_ids = 0xab83 ∷ 0xabc1 ∷ 0xab84 ∷ 0xab85 ∷ 0xab86 ∷ 0xab90 ∷ 0xab91 ∷ 0xab92 ∷ 0xaca1 ∷ []

abbrev pub mouse_ids : List ℕ
mouse_ids = 0x00 ∷ 0x03 ∷ 0x04 ∷ []

abbrev pub one_of : ℕ → List ℕ → Bool
one_of n [] = false
one_of n (k ∷ ks) = n == k || one_of n ks

-- The kind of the type of a device, at every identity: a keyboard exactly for the identities in the
-- list of keyboards, a mouse exactly for those in the list of mice, and unknown for all others.
get_device_kind_lem :
    (device_id : ℕ)
    → get_device_kind (get_device_type device_id) ≡ (
        if one_of device_id keyboard_ids
        then keyboard
        else if one_of device_id mouse_ids
        then mouse
        else unknown)
unfolding get_device_kind get_device_type
get_device_kind_lem device_id = ground arith
