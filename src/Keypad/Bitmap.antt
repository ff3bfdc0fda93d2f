-- ===== src/Keypad/Bitmap.antt =====
-- The pressed keys of QSD8250Pkg/Include/Library/KeypadDeviceHelperLib.h, kept in bitmaps of
-- 32-bit words (QSD8250Pkg/Include/Library/BitmapLib.h; `UINTN` has 32 bits on the ARM platform).
use msm8909pkg.Base.{
  ℕ, ◌/◌, ◌%◌, ◌^◌, Bool, true, not, ◌&&◌, List, [], ◌∷◌, if◌then◌else◌, ◌==◌, ltb, get_or, ◌≡◌,
  ◌≢◌, ◌<◌, arith, length, length-set, set, bit_and, bit_or,
}
use msm8909pkg.Base.Bits.{bit_not, bit_and_step, bit_or_step}

abbrev pub max_scancode : ℕ
max_scancode = 0x18

abbrev pub max_unicode_char : ℕ
max_unicode_char = 0x7f

-- `BitmapSet`, `BitmapClear` and `BitmapTest`: a word of the bitmap, and a bit in the word.
pub bitmap_set : List ℕ → ℕ → List ℕ
bitmap_set words bit = set words (bit / 32) (bit_or (get_or words (bit / 32) 0) (2 ^ (bit % 32)))

pub bitmap_clear : List ℕ → ℕ → List ℕ
bitmap_clear words bit =
    set words (bit / 32) (bit_and (get_or words (bit / 32) 0) (bit_not 32 (2 ^ (bit % 32))))

pub bitmap_test : List ℕ → ℕ → Bool
bitmap_test words bit = not (bit_and (get_or words (bit / 32) 0) (2 ^ (bit % 32)) == 0)

-- `gBitmapScanCodes` and `gBitmapUnicodeChars`.
pub record Bitmaps : Type 0 where
  pub scan_codes : List ℕ
  pub unicode_chars : List ℕ

abbrev pub no_keys : Bitmaps
no_keys = record { scan_codes = 0 ∷ []; unicode_chars = 0 ∷ 0 ∷ 0 ∷ 0 ∷ [] }

-- `if (Value) BitmapSet else BitmapClear`.
pub bitmap_put : List ℕ → ℕ → Bool → List ℕ
unfolding bitmap_set bitmap_clear
bitmap_put words bit value = if value then bitmap_set words bit else bitmap_clear words bit

-- Both bitmaps are indexed by the scan code, the one of the characters too.
pub key_set_state : Bitmaps → ℕ → ℕ → Bool → Bitmaps
unfolding bitmap_put
key_set_state b scan_code unicode_char value = record {
  scan_codes =
      if not (scan_code == 0) && ltb scan_code max_scancode
      then bitmap_put b.scan_codes scan_code value
      else b.scan_codes;
  unicode_chars =
      if not (unicode_char == 0) && ltb unicode_char max_unicode_char
      then bitmap_put b.unicode_chars scan_code value
      else b.unicode_chars;
}

pub key_get_state : Bitmaps → ℕ → ℕ → Bool
unfolding bitmap_test
key_get_state b scan_code unicode_char =
    (if not (scan_code == 0) && ltb scan_code max_scancode
      then bitmap_test b.scan_codes scan_code
      else true)
    && (if not (unicode_char == 0) && ltb unicode_char max_unicode_char
        then bitmap_test b.unicode_chars scan_code
        else true)

odd_and_one : (x : ℕ) → x % 2 ≡ 1 → bit_and x 1 ≢ 0
odd_and_one x h = omega (arith, bit_and_step x 1)

bitmap_test-set_zero :
    (words : List ℕ) → 0 < length words → bitmap_test (bitmap_set words 0) 0 ≡ true
unfolding bitmap_test bitmap_set
bitmap_test-set_zero [] h = absurd (omega arith)
bitmap_test-set_zero (w ∷ ws) h =
    let odd : bit_or w 1 % 2 ≡ 1 = omega (arith, bit_or_step w 1) in
    ground (arith, odd_and_one (bit_or w 1) odd)

-- Whatever key without a scan code goes down, the carriage return counts as down.
pub char_bits_shared :
    (b : Bitmaps) (u : ℕ)
    → 0 < length b.unicode_chars
    → 0 < u
    → u < max_unicode_char
    → key_get_state (key_set_state b 0 u true) 0 13 ≡ true
unfolding key_get_state key_set_state
char_bits_shared b u h p q = ground (arith, bitmap_test-set_zero b.unicode_chars h)

pub length-key_set_state :
    (b : Bitmaps) (s u : ℕ) (value : Bool)
    → length (key_set_state b s u value).unicode_chars ≡ length b.unicode_chars
unfolding key_set_state
length-key_set_state b s u value = ground (
  arith,
  length-set b.unicode_chars (s / 32) (bit_or (get_or b.unicode_chars (s / 32) 0) (2 ^ (s % 32))),
  length-set b.unicode_chars (s / 32)
      (bit_and (get_or b.unicode_chars (s / 32) 0) (bit_not 32 (2 ^ (s % 32)))),
)
