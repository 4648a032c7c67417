-- ===== src/Console/Rfb/Client.antt =====
-- src/console/rfb.ts: the messages that the client sends. A write of a value out of its range throws
-- in Node; here the value is taken modulo its width, and the callers pass values in range.
use pve_agent.Base.{
  if◌then◌else◌, length, Text, codes, Buffer, u16_be, u32_be, ℕ, ◌%◌, ◌≡◌, refl, Bool, true, List,
  [], ◌∷◌, ◌++◌, map,
}

abbrev pub client_version : Buffer
client_version = codes "RFB 003.008" ++ 10 ∷ []

abbrev pub pixel_format : Buffer
pixel_format = 32 ∷ 24 ∷ 0 ∷ 1 ∷ 0 ∷ 255 ∷ 0 ∷ 255 ∷ 0 ∷ 255 ∷ 16 ∷ 8 ∷ 0 ∷ 0 ∷ 0 ∷ 0 ∷ []

unfoldable pub build_set_pixel_format : Buffer
build_set_pixel_format = 0 ∷ 0 ∷ 0 ∷ 0 ∷ pixel_format

encoding_words : List ℕ → Buffer
encoding_words [] = []
encoding_words (encoding ∷ rest) = u32_be encoding ++ encoding_words rest

unfoldable pub build_set_encodings : List ℕ → Buffer
unfolding encoding_words u16_be u32_be
build_set_encodings encodings =
    (2 ∷ 0 ∷ []) ++ (u16_be (length encodings) ++ encoding_words encodings)

unfoldable pub build_fb_update_request : Bool → (x y w h : ℕ) → Buffer
unfolding u16_be
build_fb_update_request incremental x y w h =
    3 ∷ (if incremental then 1 else 0) ∷ (u16_be x ++ (u16_be y ++ (u16_be w ++ u16_be h)))

unfoldable pub build_key_event : Bool → ℕ → Buffer
unfolding u32_be
build_key_event down keysym = 4 ∷ (if down then 1 else 0) ∷ 0 ∷ 0 ∷ u32_be keysym

unfoldable pub build_pointer_event : ℕ → (x y : ℕ) → Buffer
unfolding u16_be
build_pointer_event button_mask x y = 5 ∷ button_mask % 256 ∷ (u16_be x ++ u16_be y)

-- `Buffer.from(text, 'latin1')` keeps the low byte of each code unit.
unfoldable pub build_client_cut_text : Text → Buffer
unfolding u32_be
build_client_cut_text text = 6 ∷ 0 ∷ 0 ∷ 0 ∷ (u32_be (length text) ++ map (λ c. c % 256) text)

unfoldable pub build_client_init : Bool → Buffer
build_client_init shared = (if shared then 1 else 0) ∷ []

client_tests :
    (build_key_event true 0xff0d ≡ 4 ∷ 1 ∷ 0 ∷ 0 ∷ 0 ∷ 0 ∷ 0xff ∷ 0x0d ∷ [])
    × (build_fb_update_request true 0 0 640 480 ≡ 3 ∷ 1 ∷ 0 ∷ 0 ∷ 0 ∷ 0 ∷ 2 ∷ 128 ∷ 1 ∷ 224 ∷ [])
unfolding build_key_event build_fb_update_request
client_tests = (refl, refl)
