-- ===== src/Sha1/Update.antt =====
-- What `kern_sha1_update` of src/kext/RTW88IEEE80211.cpp does to a context: the words, the bytes
-- that wait for a block, and the count of bits.
use airport_rtw.Base.{
  ℕ, suc, ◌+◌, ◌-◌, ◌*◌, ◌/◌, ◌%◌, ◌^◌, ◌≤◌, ◌<◌, ◌≡◌, refl, ap, ap₂, sym, ◌∙◌, inl, inr, true,
  false, arith, List, ◌++◌, append_assoc, ltb, if◌then◌else◌, length, length-append, length-take,
  length-drop, take-all, take-append-drop, take, drop,
}
use mathlib.Core.Path.{subst}
use airport_rtw.Wpa.Unwrap.{take-append, drop-append}
use airport_rtw.Sha1.{Words, transform, Context, copy_to, absorb, update}
use airport_rtw.Sha1.Stream.{
  Left, absorb-round, absorb-done, absorb-fuel, length-absorb, long_or_short,
}

-- The bytes that wait, and the bits so far, of which 64 bits are kept.
abbrev pub held : Context → ℕ
held c = c.count0 / 8 % 64

abbrev pub pending : Context → List ℕ
pending c = take (held c) c.buffer

abbrev pub bits : Context → ℕ
bits c = c.count1 * 2 ^ 32 + c.count0

pub record IsContext (c : Context) : Type 0 where
  pub whole : length c.buffer ≡ 64
  pub low : c.count0 < 2 ^ 32
  pub high : c.count1 < 2 ^ 32
  pub bytes : c.count0 % 8 ≡ 0

length-copy_to :
    (buffer text : List ℕ) (j : ℕ)
    → j + length text ≤ length buffer
    → length (copy_to buffer j text) ≡ length buffer
length-copy_to buffer text j h = omega (
  arith,
  length-append (take j buffer) (text ++ drop (j + length text) buffer),
  length-append text (drop (j + length text) buffer),
  length-take j buffer,
  length-drop (j + length text) buffer,
)

-- The front of a buffer after a copy.
take-copy_to :
    (buffer text : List ℕ) (j n : ℕ)
    → j ≤ length buffer
    → j + length text ≡ n
    → take n (copy_to buffer j text) ≡ take j buffer ++ text
take-copy_to buffer text j n h e =
    ap (take n) (sym (append_assoc (take j buffer) text (drop (j + length text) buffer)))
    ∙ take-append (take j buffer ++ text) (drop (j + length text) buffer) n
        (omega (arith, length-append (take j buffer) text, length-take j buffer))

abbrev next0 : Context → ℕ → ℕ
next0 c len = (c.count0 + len * 8 % 2 ^ 32) % 2 ^ 32

abbrev next1 : Context → ℕ → ℕ
next1 c len =
    ((if ltb (next0 c len) c.count0 then (c.count1 + 1) % 2 ^ 32 else c.count1) + len / 2 ^ 29)
    % 2 ^ 32

-- The count goes up by the bits of the text.
count_up :
    (c0 c1 len : ℕ)
    → c0 < 2 ^ 32
    → c1 < 2 ^ 32
    → len < 2 ^ 32
    → let n0 = (c0 + len * 8 % 2 ^ 32) % 2 ^ 32 in
      ((if ltb n0 c0 then (c1 + 1) % 2 ^ 32 else c1) + len / 2 ^ 29) % 2 ^ 32 * 2 ^ 32 + n0
      ≡ (c1 * 2 ^ 32 + c0 + len * 8) % 2 ^ 64
count_up c0 c1 len h k l = ground arith

short_test : (n : ℕ) → n < 64 → ltb 63 n ≡ false
short_test n h = ground arith

long_test : (n : ℕ) → 64 ≤ n → ltb 63 n ≡ true
long_test n h = ground arith

-- The two ways through `kern_sha1_update`.
short_update :
    (c : Context) (text : List ℕ)
    → held c + length text < 64
    → update c text ≡ record {
      state = c.state;
      count0 = next0 c (length text);
      count1 = next1 c (length text);
      buffer = copy_to c.buffer (held c) text;
    }
unfolding update
short_update c text h = rw (short_test (held c + length text) h) refl

long_update :
    (c : Context) (text : List ℕ)
    → 64 ≤ held c + length text
    → let block = copy_to c.buffer (held c) (take (64 - held c) text) in
      let rest = absorb (length text) (transform c.state block) (drop (64 - held c) text) in
      update c text ≡ record {
        state = rest.0;
        count0 = next0 c (length text);
        count1 = next1 c (length text);
        buffer = copy_to block 0 rest.1;
      }
unfolding update
long_update c text h = rw (long_test (held c + length text) h) refl

-- What a context is after a text.
abbrev pub taken_up : Context → List ℕ → Left
taken_up c text = absorb (suc (held c + length text)) c.state (pending c ++ text)

pub record Updated (c : Context) (text : List ℕ) (n : Context) : Type 0 where
  pub words : n.state ≡ (taken_up c text).0
  pub waits : pending n ≡ (taken_up c text).1
  pub counted : bits n ≡ (bits c + length text * 8) % 2 ^ 64
  pub valid : IsContext n

module _ (c : Context) (text : List ℕ) (v : IsContext c) (small : length text < 2 ^ 32) where
  pub length-pending : length (pending c) ≡ held c
  length-pending = omega (arith, length-take (held c) c.buffer, v.whole)

  next-held : next0 c (length text) / 8 % 64 ≡ (held c + length text) % 64
  next-held = omega (arith, v.bytes)

  next-bytes : next0 c (length text) % 8 ≡ 0
  next-bytes = omega (arith, v.bytes)

  next-IsContext :
      (s : Words) (buffer : List ℕ)
      → length buffer ≡ 64
      → IsContext (record {
        state = s;
        count0 = next0 c (length text);
        count1 = next1 c (length text);
        buffer = buffer;
      })
  next-IsContext s buffer e = record {
    whole = e;
    low = omega arith;
    high = omega arith;
    bytes = next-bytes;
  }

  short-Updated :
      held c + length text < 64
      → Updated c text (record {
        state = c.state;
        count0 = next0 c (length text);
        count1 = next1 c (length text);
        buffer = copy_to c.buffer (held c) text;
      })
  short-Updated h =
      let done =
        absorb-done (suc (held c + length text)) c.state (pending c ++ text)
          (omega (arith, length-append (pending c) text, length-pending)) in
      record {
        words = sym (ap (λ (r : Left). r.0) done);
        waits =
            take-copy_to c.buffer text (held c) (next0 c (length text) / 8 % 64)
              (omega (arith, v.whole)) (omega (arith, next-held))
            ∙ sym (ap (λ (r : Left). r.1) done);
        counted = count_up c.count0 c.count1 (length text) v.low v.high small;
        valid =
            next-IsContext c.state (copy_to c.buffer (held c) text)
              (length-copy_to c.buffer text (held c) (omega (arith, v.whole)) ∙ v.whole);
      }

  module _ (h : 64 ≤ held c + length text) where
    abbrev front : List ℕ
    front = take (64 - held c) text

    abbrev back : List ℕ
    back = drop (64 - held c) text

    abbrev block : List ℕ
    block = copy_to c.buffer (held c) front

    length-front : length front ≡ 64 - held c
    length-front = omega (arith, length-take (64 - held c) text)

    length-block : length block ≡ 64
    length-block =
        length-copy_to c.buffer front (held c) (omega (arith, length-front, v.whole)) ∙ v.whole

    -- The block that is filled up, and what is behind it.
    split : pending c ++ text ≡ block ++ back
    split =
        ap (λ t. pending c ++ t) (sym (take-append-drop (64 - held c) text))
        ∙ sym (append_assoc (pending c) front back)
        ∙ ap (λ t. t ++ back)
            (sym (
                take-copy_to c.buffer front (held c) 64 (omega (arith, v.whole))
                  (omega (arith, length-front)))
              ∙ take-all 64 block (omega (arith, length-block)))

    length-back : length back ≡ length text - (64 - held c)
    length-back = length-drop (64 - held c) text

    filled : taken_up c text ≡ absorb (length text) (transform c.state block) back
    filled =
        ap (absorb (suc (held c + length text)) c.state) split
        ∙ absorb-round (held c + length text) c.state (block ++ back)
            (omega (arith, length-append block back, length-block))
        ∙ ap₂ (λ b t. absorb (held c + length text) (transform c.state b) t)
            (take-append block back 64 length-block) (drop-append block back 64 length-block)
        ∙ absorb-fuel (held c + length text) (length text) (transform c.state block) back
            (omega (arith, length-back)) (omega (arith, length-back))

    long-Updated :
        let rest = absorb (length text) (transform c.state block) back in
        Updated c text (record {
          state = rest.0;
          count0 = next0 c (length text);
          count1 = next1 c (length text);
          buffer = copy_to block 0 rest.1;
        })
    long-Updated =
        let rest = absorb (length text) (transform c.state block) back in
        let size : length rest.1 ≡ length back % 64 =
          length-absorb (length text) (transform c.state block) back (omega (arith, length-back)) in
        record {
          words = sym (ap (λ (r : Left). r.0) filled);
          waits =
              take-copy_to block rest.1 0 (next0 c (length text) / 8 % 64) (omega arith)
                (omega (arith, next-held, size, length-back))
              ∙ sym (ap (λ (r : Left). r.1) filled);
          counted = count_up c.count0 c.count1 (length text) v.low v.high small;
          valid =
              next-IsContext rest.0 (copy_to block 0 rest.1)
                (length-copy_to block rest.1 0 (omega (arith, size, length-block)) ∙ length-block);
        }

  pub update-Updated : Updated c text (update c text)
  update-Updated = elim (long_or_short (held c + length text)) [
    | inl h ↦ subst (Updated c text) (sym (long_update c text h)) (long-Updated h)
    | inr h ↦ subst (Updated c text) (sym (short_update c text h)) (short-Updated h)
  ]
