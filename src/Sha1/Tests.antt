-- ===== src/Sha1/Tests.antt =====
-- SHA-1 and HMAC of src/kext/RTW88IEEE80211.cpp at the examples of FIPS 180 and RFC 2202.
use Prim.Native.Nat.{bit_and}
use airport_rtw.Base.{ℕ, ◌≡◌, refl, arith, List, [], ◌∷◌, replicate}
use airport_rtw.Wpa.{xor_bytes}
use airport_rtw.Sha1.{Context, init, update, fill, final, sha1, hmac_sha1}
use airport_rtw.Sha1.Update.{IsContext, held}
use airport_rtw.Sha1.Digest.{update_all, joined, rfc_hmac, sha1-pieces, hmac_sha1_lem}
use airport_rtw.Sha1.Fill.{fill_ends}

abbrev garbage : List ℕ
garbage = replicate 64 77

-- The message "abc".
fips_example :
    sha1 garbage (97 ∷ 98 ∷ 99 ∷ [])
    ≡ 0xa9 ∷ 0x99 ∷ 0x3e ∷ 0x36 ∷ 0x47 ∷ 0x06 ∷ 0x81 ∷ 0x6a ∷ 0xba ∷ 0x3e ∷ 0x25 ∷ 0x71 ∷ 0x78
      ∷ 0x50 ∷ 0xc2 ∷ 0x6c ∷ 0x9c ∷ 0xd0 ∷ 0xd8 ∷ 0x9d ∷ []
unfolding sha1 final fill update
fips_example = refl

-- The second example of RFC 2202: the key "Jefe".
rfc_example :
    hmac_sha1
      (λ k. garbage)
      (74 ∷ 101 ∷ 102 ∷ 101 ∷ [])
      (119 ∷ 104 ∷ 97 ∷ 116 ∷ 32 ∷ 100 ∷ 111 ∷ 32 ∷ 121 ∷ 97 ∷ 32 ∷ 119 ∷ 97 ∷ 110 ∷ 116 ∷ 32 ∷ 102
        ∷ 111 ∷ 114 ∷ 32 ∷ 110 ∷ 111 ∷ 116 ∷ 104 ∷ 105 ∷ 110 ∷ 103 ∷ 63 ∷ [])
    ≡ 0xef ∷ 0xfc ∷ 0xdf ∷ 0x6a ∷ 0xe5 ∷ 0xeb ∷ 0x2f ∷ 0xa2 ∷ 0xd2 ∷ 0x74 ∷ 0x16 ∷ 0xd5 ∷ 0xf1
      ∷ 0x84 ∷ 0xdf ∷ 0x9c ∷ 0x25 ∷ 0x9a ∷ 0x7c ∷ 0x79 ∷ []
unfolding hmac_sha1 sha1 final fill update xor_bytes
rfc_example = refl

abbrev cut : List (List ℕ)
cut = replicate 70 1 ∷ [] ∷ replicate 57 2 ∷ replicate 200 3 ∷ []

sha1-pieces_example : final (update_all (init garbage) cut) ≡ sha1 (replicate 64 0) (joined cut)
unfolding joined
sha1-pieces_example = sha1-pieces garbage (replicate 64 0) cut refl refl (omega arith)

hmac_sha1_lem_example :
    hmac_sha1 (λ k. garbage) (replicate 80 7) (replicate 90 8)
    ≡ rfc_hmac (sha1 (replicate 64 0)) (replicate 80 7) (replicate 90 8)
hmac_sha1_lem_example =
    hmac_sha1_lem (λ k. garbage) (replicate 64 0) (replicate 80 7) (replicate 90 8) (λ k. refl) refl
      (omega arith) (omega arith)

abbrev late : Context
late = record { state = (init garbage).state; count0 = 504; count1 = 1; buffer = garbage }

fill_ends_example :
    IsContext (fill 64 late)
    × (held (fill 64 late) ≡ 56)
    × (bit_and (fill 64 late).count0 504 ≡ 448)
fill_ends_example =
    fill_ends late (record { whole = refl; low = omega arith; high = omega arith; bytes = refl })
