-- ===== src/Frames/Built.antt =====
-- The bytes of the built frames.
use airport_rtw.Base.{
  ℕ, ◌+◌, ◌-◌, ◌/◌, ◌%◌, ◌^◌, ◌≤◌, ◌≡◌, refl, ap, ap₂, sym, ◌∙◌, Bool, true, false, some, List, [],
  ◌∷◌, ◌++◌, arith, if◌then◌else◌, length, replicate,
}
use airport_rtw.Skb.{Skb, Blocks, new_skb, store, load, alloc_skb, reserve, headroom}
use airport_rtw.Skb.Inv.{IsValid}
use airport_rtw.Skb.Payload.{payload, load-store, length-replicate}
use airport_rtw.Frames.{
  mac_bytes, Vif, headroom_size, frame_start, nullfunc_len, write_nullfunc, pspoll_aid,
  write_pspoll, nullfunc_get, pspoll_get, with_skb,
}
use airport_rtw.Frames.Overlay.{overlay, load-store_inside}

-- The frame as 802.11 lays it out.
unfoldable pub nullfunc_frame : Vif → Bool → List ℕ
nullfunc_frame vif qos_ok =
    (if qos_ok then 0xC8 else 0x48)
    ∷ 1
    ∷ 0
    ∷ 0
    ∷ (mac_bytes vif.bssid
        ++ (mac_bytes vif.addr
            ++ (mac_bytes vif.bssid ++ (if qos_ok then 0 ∷ 0 ∷ 0 ∷ 0 ∷ [] else 0 ∷ 0 ∷ []))))

unfoldable pub pspoll_frame : Vif → List ℕ
pspoll_frame vif =
    0xA4
    ∷ 0
    ∷ pspoll_aid vif.aid % 256
    ∷ pspoll_aid vif.aid / 256
    ∷ (mac_bytes vif.bssid ++ mac_bytes vif.addr)

module _ (base alloc_size : ℕ) (bytes : ℕ → ℕ) (room : base + 154 ≤ 2 ^ 64 - 1) where
  abbrev fresh : Skb
  fresh = new_skb base alloc_size bytes

  start-fresh : frame_start fresh ≡ base + 64
  unfolding reserve
  start-fresh = omega arith

  -- The bytes of the frame after `skb_put_zero`, and after one more write.
  zeros : (n : ℕ) → load (store bytes (base + 64) (replicate n 0)) (base + 64) n ≡ replicate n 0
  zeros n =
      ap (load (store bytes (base + 64) (replicate n 0)) (base + 64)) (sym (length-replicate n 0))
      ∙ load-store (replicate n 0) bytes (base + 64)

  poked :
      (n k : ℕ) (bs frame : List ℕ) (m : ℕ → ℕ)
      → k + length bs ≤ n
      → load m (base + 64) n ≡ frame
      → load (store m (base + 64 + k) bs) (base + 64) n ≡ overlay k bs frame
  poked n k bs frame m h e = load-store_inside k bs m (base + 64) n h ∙ ap (overlay k bs) e

  -- The writes that both forms of the Null Function frame share.
  addressed :
      (vif : Vif) (n fc : ℕ) (m : ℕ → ℕ)
      → 24 ≤ n
      → load m (base + 64) n ≡ replicate n 0
      → load
          (store
            (store
              (store
                (store
                  (store m (base + 64 + 0) (fc ∷ 1 ∷ 0 ∷ 0 ∷ []))
                  (base + 64 + 4)
                  (mac_bytes vif.bssid))
                (base + 64 + 10)
                (mac_bytes vif.addr))
              (base + 64 + 16)
              (mac_bytes vif.bssid))
            (base + 64 + 22)
            (0 ∷ 0 ∷ []))
          (base + 64)
          n
        ≡ overlay 22 (0 ∷ 0 ∷ []) (
            overlay 16 (mac_bytes vif.bssid) (
              overlay 10 (mac_bytes vif.addr) (
                overlay 4 (mac_bytes vif.bssid) (overlay 0 (fc ∷ 1 ∷ 0 ∷ 0 ∷ []) (replicate n 0)))))
  addressed vif n fc m h e = poked n 22 (0 ∷ 0 ∷ []) _ _ (omega arith) (
      poked n 16 (mac_bytes vif.bssid) _ _ (omega arith) (
        poked n 10 (mac_bytes vif.addr) _ _ (omega arith) (
          poked n 4 (mac_bytes vif.bssid) _ _ (omega arith)
            (poked n 0 (fc ∷ 1 ∷ 0 ∷ 0 ∷ []) _ _ (omega arith) e))))

  nullfunc_bytes :
      (vif : Vif) (qos_ok : Bool)
      → load (write_nullfunc vif qos_ok fresh).mem (base + 64) (nullfunc_len qos_ok)
        ≡ nullfunc_frame vif qos_ok
  unfolding write_nullfunc nullfunc_frame
  nullfunc_bytes vif false = rw start-fresh (addressed vif 24 0x48 _ (omega arith) (zeros 24))
  nullfunc_bytes vif true = rw start-fresh (
      poked 26 24 (0 ∷ 0 ∷ []) _ _ (omega arith) (addressed vif 26 0xC8 _ (omega arith) (zeros 26)))

  pspoll_bytes : (vif : Vif) → load (write_pspoll vif fresh).mem (base + 64) 16 ≡ pspoll_frame vif
  unfolding write_pspoll pspoll_frame
  pspoll_bytes vif = rw start-fresh (
      poked 16 10 (mac_bytes vif.addr) _ _ (omega arith) (
        poked 16 4 (mac_bytes vif.bssid) _ _ (omega arith) (
          poked 16 0 (0xA4 ∷ 0 ∷ pspoll_aid vif.aid % 256 ∷ pspoll_aid vif.aid / 256 ∷ []) _ _
            (omega arith) (zeros 16))))

  written-IsValid :
      (vif : Vif) (qos_ok : Bool)
      → alloc_size ≡ 64 + nullfunc_len qos_ok + 64
      → IsValid (write_nullfunc vif qos_ok fresh)
        × (headroom (write_nullfunc vif qos_ok fresh) ≡ 64)
  unfolding write_nullfunc headroom
  written-IsValid vif false e = ground arith
  written-IsValid vif true e = ground arith

  polled-IsValid :
      (vif : Vif)
      → alloc_size ≡ 144
      → IsValid (write_pspoll vif fresh) × (headroom (write_pspoll vif fresh) ≡ 64)
  unfolding write_pspoll headroom
  polled-IsValid vif e = ground arith

  -- The payload lies behind the headroom.
  nullfunc_shape :
      (vif : Vif) (qos_ok : Bool)
      → let s = write_nullfunc vif qos_ok fresh in
        (s.front ≡ base + 64) × (s.len ≡ nullfunc_len qos_ok)
  unfolding write_nullfunc
  nullfunc_shape vif false = ground arith
  nullfunc_shape vif true = ground arith

  pspoll_shape :
      (vif : Vif) → let s = write_pspoll vif fresh in (s.front ≡ base + 64) × (s.len ≡ 16)
  unfolding write_pspoll
  pspoll_shape vif = ground arith

  nullfunc-payload :
      (vif : Vif) (qos_ok : Bool)
      → payload (write_nullfunc vif qos_ok fresh) ≡ nullfunc_frame vif qos_ok
  nullfunc-payload vif qos_ok =
      let (e, f) = nullfunc_shape vif qos_ok in
      ap₂ (load (write_nullfunc vif qos_ok fresh).mem) e f ∙ nullfunc_bytes vif qos_ok

  pspoll-payload : (vif : Vif) → payload (write_pspoll vif fresh) ≡ pspoll_frame vif
  pspoll-payload vif =
      let (e, f) = pspoll_shape vif in
      ap₂ (load (write_pspoll vif fresh).mem) e f ∙ pspoll_bytes vif

built :
    (b : Blocks) (write : Skb → Skb) (base size total : ℕ)
    → b.buffer ≡ some base
    → b.skb ≡ true
    → (size + 64) % 2 ^ 32 ≡ total
    → with_skb write (alloc_skb b size) ≡ some (write (new_skb base total b.bytes))
unfolding alloc_skb
built b write base size total got made e =
    rw (got, made) (ap (λ n. some (write (new_skb base n b.bytes))) e)

-- Given an interface and both blocks, `ieee80211_nullfunc_get` and `ieee80211_pspoll_get` each return a valid buffer with 64 bytes of headroom whose bytes are the frame: frame
-- control, duration or AID, BSSID and station, and for the Null Function the BSSID once more, the
-- sequence control and, with QoS, its control field.
pub frames_built :
    (b : Blocks) (vif : Vif) (qos_ok : Bool) (base : ℕ)
    → b.buffer ≡ some base
    → b.skb ≡ true
    → base + 154 ≤ 2 ^ 64 - 1
    → ((s : Skb) × (nullfunc_get b (some vif) qos_ok ≡ some s)
        × IsValid s
        × (headroom s ≡ 64)
        × (payload s ≡ nullfunc_frame vif qos_ok))
      × ((s : Skb) × (pspoll_get b (some vif) ≡ some s)
          × IsValid s
          × (headroom s ≡ 64)
          × (payload s ≡ pspoll_frame vif))
unfolding nullfunc_get pspoll_get
frames_built b vif qos_ok base got made room =
    let size = 64 + nullfunc_len qos_ok + 64 in
    let v = written-IsValid base size b.bytes room vif qos_ok refl in
    let p = polled-IsValid base 144 b.bytes room vif refl in
    (
      (
        write_nullfunc vif qos_ok (new_skb base size b.bytes),
        built b (write_nullfunc vif qos_ok) base (headroom_size + nullfunc_len qos_ok) size got made
            (ground arith),
        v.0,
        v.1,
        nullfunc-payload base size b.bytes room vif qos_ok,
      ),
      (
        write_pspoll vif (new_skb base 144 b.bytes),
        built b (write_pspoll vif) base (headroom_size + 16) 144 got made refl,
        p.0,
        p.1,
        pspoll-payload base 144 b.bytes room vif,
      ),
    )
