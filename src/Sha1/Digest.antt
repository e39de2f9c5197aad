-- ===== src/Sha1/Digest.antt =====
-- The digest of a message in pieces, and HMAC, of src/kext/RTW88IEEE80211.cpp.
use Prim.Native.Nat.{bit_and}
use mathlib.Core.Path.{subst}
use airport_rtw.Base.{
  ℕ, zero, suc, ◌-◌, ◌^◌, ◌≤◌, ◌<◌, ◌≡◌, refl, ap, ◌∙◌, Bool, true, false, arith, List, [], ◌∷◌,
  ◌++◌, ◌==◌, ltb, if◌then◌else◌, length, length-append, replicate,
}
use airport_rtw.Wpa.{be32, xor_bytes}
use airport_rtw.Wpa.Xor.{length-xor_bytes}
use airport_rtw.Sha1.{Words, Context, init, update, fill, final, sha1, hmac_key, hmac_sha1}
use airport_rtw.Sha1.Update.{IsContext, update-Updated}
use airport_rtw.Sha1.Pieces.{Same, Same-trans, update-Same, update-nil, update-append}

if-Same :
    (b : Bool) (c k x y : Context)
    → Same c k
    → Same x y
    → Same (if b then c else x) (if b then k else y)
if-Same true c k x y p q = p
if-Same false c k x y p q = q

fill-Same : (fuel : ℕ) (c k : Context) → Same c k → Same (fill fuel c) (fill fuel k)
unfolding fill
fill-Same zero c k s = s
fill-Same (suc fuel) c k s =
    let x = fill fuel (update c (0 ∷ [])) in
    let y = fill fuel (update k (0 ∷ [])) in
    let later =
      fill-Same fuel (update c (0 ∷ [])) (update k (0 ∷ []))
        (update-Same c k (0 ∷ []) s (omega arith)) in
    subst
      (λ (n : ℕ).
        Same (if bit_and c.count0 504 == 448 then c else x) (if bit_and n 504 == 448 then k else y))
      s.low (if-Same (bit_and c.count0 504 == 448) c k x y s later)

-- The digest is that of the text.
final-Same : (c k : Context) → Same c k → final c ≡ final k
unfolding final
final-Same c k s =
    let marked = update-Same c k (0x80 ∷ []) s (omega arith) in
    let filled = fill-Same 64 (update c (0x80 ∷ [])) (update k (0x80 ∷ [])) marked in
    let counted : Context → List ℕ = λ x. be32 x.count1 ++ be32 x.count0 in
    let same_count : counted c ≡ counted k = λ i. be32 (s.high i) ++ be32 (s.low i) in
    let last =
      update-Same (fill 64 (update c (0x80 ∷ []))) (fill 64 (update k (0x80 ∷ []))) (counted c)
        filled (omega arith) in
    let spelled : Words → List ℕ =
      λ w. be32 w.a ++ (be32 w.b ++ (be32 w.c ++ (be32 w.d ++ be32 w.e))) in
    ap spelled last.words
    ∙ ap (λ t. spelled (update (fill 64 (update k (0x80 ∷ []))) t).state) same_count

init-IsContext : (buffer : List ℕ) → length buffer ≡ 64 → IsContext (init buffer)
init-IsContext buffer e = record { whole = e; low = omega arith; high = omega arith; bytes = refl }

init-Same : (b b' : List ℕ) → length b ≡ 64 → length b' ≡ 64 → Same (init b) (init b')
init-Same b b' e e' = record {
  words = refl;
  waits = refl;
  low = refl;
  high = refl;
  valid = init-IsContext b e;
  valid' = init-IsContext b' e';
}

-- The pieces one after the other, and all of them in a row.
unfoldable pub update_all : Context → List (List ℕ) → Context
unfolding update
update_all c [] = c
update_all c (x ∷ xs) = update_all (update c x) xs

unfoldable pub joined : List (List ℕ) → List ℕ
joined [] = []
joined (x ∷ xs) = x ++ joined xs

update_all-Same :
    (c : Context) (xs : List (List ℕ))
    → IsContext c
    → length (joined xs) < 2 ^ 32
    → Same (update_all c xs) (update c (joined xs))
unfolding update_all joined
update_all-Same c [] v h = update-nil c v
update_all-Same c (x ∷ xs) v h =
    let size = length-append x (joined xs) in
    let u = update-Updated c x v (omega (arith, size)) in
    Same-trans (update_all (update c x) xs) (update (update c x) (joined xs))
      (update c (x ++ joined xs)) (update_all-Same (update c x) xs u.valid (omega (arith, size)))
      (update-append c x (joined xs) v (omega (arith, size)))

-- The digest of a message of less than 2 ^ 32 bytes does not depend on the pieces in which it comes,
-- however many and however long or empty they are, nor on what the buffer on the stack held.
pub sha1-pieces :
    (buffer buffer' : List ℕ) (xs : List (List ℕ))
    → length buffer ≡ 64
    → length buffer' ≡ 64
    → length (joined xs) < 2 ^ 32
    → final (update_all (init buffer) xs) ≡ sha1 buffer' (joined xs)
unfolding sha1
sha1-pieces buffer buffer' xs e e' h =
    final-Same (update_all (init buffer) xs) (update (init buffer') (joined xs)) (
      Same-trans (update_all (init buffer) xs) (update (init buffer) (joined xs))
        (update (init buffer') (joined xs))
        (update_all-Same (init buffer) xs (init-IsContext buffer e) h)
        (update-Same (init buffer) (init buffer') (joined xs) (init-Same buffer buffer' e e') h))

-- Two pieces.
two_pieces :
    (buffer buffer' x y : List ℕ)
    → length buffer ≡ 64
    → length buffer' ≡ 64
    → length (x ++ y) < 2 ^ 32
    → final (update (update (init buffer) x) y) ≡ sha1 buffer' (x ++ y)
unfolding sha1
two_pieces buffer buffer' x y e e' h =
    let size = length-append x y in
    final-Same (update (update (init buffer) x) y) (update (init buffer') (x ++ y)) (
      Same-trans (update (update (init buffer) x) y) (update (init buffer) (x ++ y))
        (update (init buffer') (x ++ y))
        (update-append (init buffer) x y (init-IsContext buffer e) (omega (arith, size)))
        (update-Same (init buffer) (init buffer') (x ++ y) (init-Same buffer buffer' e e') h))

length-final : (c : Context) → length (final c) ≡ 20
unfolding final
length-final c = refl

-- RFC 2104, over the digest of whole messages.
abbrev pub rfc_hmac : (hash : List ℕ → List ℕ) → (key text : List ℕ) → List ℕ
rfc_hmac hash key text =
    let k = if ltb 64 (length key) then hash key else key in
    let padded = k ++ replicate (64 - length k) 0 in
    hash
      (xor_bytes padded (replicate 64 0x5c) ++ hash (xor_bytes padded (replicate 64 0x36) ++ text))

length-replicate : (n : ℕ) → length (replicate {A = ℕ} n 0) ≡ n
length-replicate zero = refl
length-replicate (suc n) = ap (λ k. suc k) (length-replicate n)

short_key : (n : ℕ) → ltb 64 n ≡ false → n ≤ 64
short_key n h = ground arith

length-padded : (k : List ℕ) → length k ≤ 64 → length (k ++ replicate (64 - length k) 0) ≡ 64
length-padded k h =
    omega (arith, length-append k (replicate (64 - length k) 0), length-replicate (64 - length k))

length-sha1 : (buffer text : List ℕ) → length (sha1 buffer text) ≡ 20
unfolding sha1
length-sha1 buffer text = length-final (update (init buffer) text)

chosen :
    (b : Bool) (h key : List ℕ)
    → length h ≡ 20
    → (b ≡ false → length key ≤ 64)
    → length (if b then h else key) ≤ 64
chosen true h key e f = omega (arith, e)
chosen false h key e f = f refl

length-hmac_key : (buffer key : List ℕ) → length (hmac_key buffer key) ≤ 64
length-hmac_key buffer key =
    chosen (ltb 64 (length key)) (sha1 buffer key) key (length-sha1 buffer key)
      (short_key (length key))

-- The digest does not depend on the buffer.
sha1_buffer :
    (b b' text : List ℕ)
    → length b ≡ 64
    → length b' ≡ 64
    → length text < 2 ^ 32
    → sha1 b text ≡ sha1 b' text
unfolding sha1
sha1_buffer b b' text e e' h =
    final-Same (update (init b) text) (update (init b') text)
      (update-Same (init b) (init b') text (init-Same b b' e e') h)

abbrev mask : (pad : ℕ) → (k : List ℕ) → List ℕ
mask pad k = xor_bytes (k ++ replicate (64 - length k) 0) (replicate 64 pad)

length-mask : (pad : ℕ) (k : List ℕ) → length k ≤ 64 → length (mask pad k) ≡ 64
length-mask pad k h =
    length-xor_bytes (k ++ replicate (64 - length k) 0) (replicate 64 pad) ∙ length-padded k h

-- `kern_hmac_sha1` is the HMAC of RFC 2104 over the digest of whole messages, for a key and a text
-- of less than 2 ^ 31 bytes and whatever the buffer of the context holds each time.
pub hmac_sha1_lem :
    (buffers : ℕ → List ℕ) (buffer key text : List ℕ)
    → ((k : ℕ) → length (buffers k) ≡ 64)
    → length buffer ≡ 64
    → length key < 2 ^ 31
    → length text < 2 ^ 31
    → hmac_sha1 buffers key text ≡ rfc_hmac (sha1 buffer) key text
unfolding hmac_sha1
hmac_sha1_lem buffers buffer key text each e k t =
    let k0 = hmac_key (buffers 0) key in
    let size = length-hmac_key (buffers 0) key in
    let ipad = mask 0x36 k0 in
    let opad = mask 0x5c k0 in
    let inner = final (update (update (init (buffers 1)) ipad) text) in
    let whole_inner : inner ≡ sha1 buffer (ipad ++ text) =
      two_pieces (buffers 1) buffer ipad text (each 1) e
        (omega (arith, length-append ipad text, length-mask 0x36 k0 size)) in
    let whole : final (update (update (init (buffers 2)) opad) inner)
        ≡ sha1 buffer (opad ++ inner) =
      two_pieces (buffers 2) buffer opad inner (each 2) e (
        omega (
          arith,
          length-append opad inner,
          length-mask 0x5c k0 size,
          length-final (update (update (init (buffers 1)) ipad) text),
        )) in
    whole
    ∙ ap (λ d. sha1 buffer (opad ++ d)) whole_inner
    ∙ ap
        (λ (h : List ℕ).
          (let c = if ltb 64 (length key) then h else key in
            sha1 buffer (mask 0x5c c ++ sha1 buffer (mask 0x36 c ++ text))))
        (sha1_buffer (buffers 0) buffer key (each 0) e (omega arith))
