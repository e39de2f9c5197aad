-- ===== src/Air/Bytes.antt =====
-- The pieces that the frames are made of: addresses, words, and the headers of src/kext/
-- RTW88IEEE80211.cpp that stand in front of a payload.
use airport_rtw.Base.{
  ℕ, ◌+◌, ◌*◌, ◌/◌, ◌%◌, ◌<◌, ◌≡◌, ap, ◌∙◌, List, [], ◌∷◌, ◌++◌, arith, length, get_or, take, drop,
}

-- A list of six bytes, taken apart.
pub data Six : List ℕ → Type 0 where
  six : (a b c d e f : ℕ) → Six (a ∷ b ∷ c ∷ d ∷ e ∷ f ∷ [])

pub length-Six : (xs : List ℕ) → length xs ≡ 6 → Six xs
length-Six (a ∷ b ∷ c ∷ d ∷ e ∷ f ∷ []) h = six a b c d e f
length-Six [] h = absurd (omega arith)
length-Six (a ∷ []) h = absurd (omega arith)
length-Six (a ∷ b ∷ []) h = absurd (omega arith)
length-Six (a ∷ b ∷ c ∷ []) h = absurd (omega arith)
length-Six (a ∷ b ∷ c ∷ d ∷ []) h = absurd (omega arith)
length-Six (a ∷ b ∷ c ∷ d ∷ e ∷ []) h = absurd (omega arith)
length-Six (a ∷ b ∷ c ∷ d ∷ e ∷ f ∷ g ∷ xs) h = absurd (omega arith)

-- A word of 16 bits, low byte first, and high byte first.
abbrev pub le_word : ℕ → List ℕ
le_word x = x % 256 ∷ x / 256 % 256 ∷ []

abbrev pub be_word : ℕ → List ℕ
be_word x = x / 256 % 256 ∷ x % 256 ∷ []

abbrev pub be16 : List ℕ → ℕ
be16 p = get_or p 0 0 * 256 + get_or p 1 0

-- The bytes of the sequence control field.
abbrev pub seq_ctrl : ℕ → List ℕ
seq_ctrl n = le_word (n % 4096 * 16)

-- The addresses of an 802.11 header.
abbrev pub addr1 : List ℕ → List ℕ
addr1 f = take 6 (drop 4 f)

abbrev pub addr2 : List ℕ → List ℕ
addr2 f = take 6 (drop 10 f)

abbrev pub addr3 : List ℕ → List ℕ
addr3 f = take 6 (drop 16 f)

-- An Ethernet frame.
abbrev pub ethernet : (da sa kind payload : List ℕ) → List ℕ
ethernet da sa kind payload = da ++ (sa ++ (kind ++ payload))

-- Two bytes are the word that they spell.
pub word-be : (high low : ℕ) → high < 256 → low < 256 → be_word (high * 256 + low) ≡ high ∷ low ∷ []
word-be high low h l =
    ap (λ (x : ℕ). x ∷ (high * 256 + low) % 256 ∷ []) (omega arith)
    ∙ ap (λ (y : ℕ). high ∷ y ∷ []) (omega arith)
