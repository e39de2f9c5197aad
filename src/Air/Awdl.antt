-- ===== src/Air/Awdl.antt =====
-- `txAWDLDataFrame`, `tryDeliverAWDLDataFrame` and `deliverAWDLEthernet` of src/kext/
-- RTW88IEEE80211.cpp: Ethernet frames between peers, without an access point.
use airport_rtw.Base.{
  ℕ, ◌+◌, ◌*◌, ◌%◌, ◌^◌, ◌≤◌, ◌<◌, ◌≡◌, ap, ◌∙◌, Bool, true, not, ◌&&◌, ◌||◌, Option, none, some,
  List, [], ◌∷◌, ◌++◌, ltb, ltb-of_le, if◌then◌else◌, arith, length, length-append, take, drop,
}
use airport_rtw.Wpa.{le16, same_bytes}
use airport_rtw.Frames.Control.{get_hdrlen, has_tods, has_fromds}
use airport_rtw.Air.Bytes.{
  Six, six, length-Six, le_word, be_word, be16, seq_ctrl, addr1, addr2, addr3, ethernet, word-be,
}

-- `awdlBssid`
abbrev pub awdl_bssid : List ℕ
awdl_bssid = 0x00 ∷ 0x25 ∷ 0x00 ∷ 0xff ∷ 0x94 ∷ 0x73 ∷ []

-- The SNAP header of AWDL, and the start of the header behind it.
abbrev pub awdl_snap : List ℕ
awdl_snap = 0xaa ∷ 0xaa ∷ 0x03 ∷ 0x00 ∷ 0x17 ∷ 0xf2 ∷ 0x08 ∷ 0x00 ∷ []

-- The sequence numbers that sending moves on.
pub record AwdlSender : Type 0 where
  pub attached : Bool
  pub tx_seq : ℕ
  pub awdl_seq : ℕ

unfoldable pub awdl_frame : (seq awdl_seq : ℕ) → (m : List ℕ) → List ℕ
awdl_frame seq awdl_seq m =
    le_word 0x0008
    ++ (0 ∷ 0 ∷ take 6 m
        ++ (take 6 (drop 6 m)
            ++ (awdl_bssid
                ++ (seq_ctrl seq
                    ++ (awdl_snap
                        ++ (0x03 ∷ 0x04 ∷ le_word awdl_seq
                            ++ (0 ∷ 0 ∷ be_word (be16 (drop 12 m)) ++ drop 14 m)))))))

-- `txAWDLDataFrame`: the frame that the driver is given. `granted` is the allocator's answer.
unfoldable pub tx_awdl_data_frame :
    (granted : Bool) → AwdlSender → (m : List ℕ) → Option (List ℕ) × AwdlSender
unfolding awdl_frame
tx_awdl_data_frame granted s m =
    if not s.attached
    then (none, s)
    else if ltb (length m) 14 || ltb 4096 (length m)
    then (none, s)
    else if not granted
    then (none, s)
    else (
      some (awdl_frame s.tx_seq s.awdl_seq m),
      record s { tx_seq = (s.tx_seq + 1) % 2 ^ 16; awdl_seq = (s.awdl_seq + 1) % 2 ^ 16 },
    )

abbrev pub deliver_awdl_ethernet :
    (given : ℕ → Bool) → (da sa : List ℕ) → (ethertype : ℕ) → (payload : List ℕ) → List (List ℕ)
deliver_awdl_ethernet given da sa ethertype payload =
    if given (14 + length payload) then ethernet da sa (be_word ethertype) payload ∷ [] else []

-- A frame that is long enough, by what stands behind its header.
abbrev pub is_awdl_body : List ℕ → Bool
is_awdl_body p =
    same_bytes (take 8 p) awdl_snap && same_bytes (take 2 (drop 8 p)) (0x03 ∷ 0x04 ∷ [])

-- `tryDeliverAWDLDataFrame`: `none` is a frame for the infrastructure's path, and `some` holds what
-- the AWDL interface is given of a frame that is consumed.
unfoldable pub try_deliver_awdl_data_frame :
    (given : ℕ → Bool) → (f : List ℕ) → Option (List (List ℕ))
try_deliver_awdl_data_frame given f =
    let fc = le16 f in
    let hdrlen = get_hdrlen fc in
    let p = drop hdrlen f in
    if ltb (length f) 40
    then none
    else if has_tods fc || has_fromds fc
    then none
    else if not (same_bytes (addr3 f) awdl_bssid)
    then none
    else if ltb hdrlen 24 || ltb (length f) (hdrlen + 16)
    then none
    else if not (is_awdl_body p)
    then none
    else some (deliver_awdl_ethernet given (addr1 f) (addr2 f) (be16 (drop 14 p)) (drop 16 p))

abbrev after_awdl : AwdlSender → AwdlSender
after_awdl s = record s { tx_seq = (s.tx_seq + 1) % 2 ^ 16; awdl_seq = (s.awdl_seq + 1) % 2 ^ 16 }

tx_awdl-accepts :
    (s : AwdlSender) (m : List ℕ)
    → s.attached ≡ true
    → 14 ≤ length m
    → length m ≤ 4096
    → tx_awdl_data_frame true s m ≡ (some (awdl_frame s.tx_seq s.awdl_seq m), after_awdl s)
unfolding tx_awdl_data_frame
tx_awdl-accepts s m on low high = ground arith

module _ (given : ℕ → Bool) (high low : ℕ) (payload : List ℕ) (h : high < 256) (l : low < 256)
    (room : given (14 + length payload) ≡ true) where
  awdl_read_back :
      (seq awdl_seq : ℕ) {da sa : List ℕ}
      → Six da
      → Six sa
      → try_deliver_awdl_data_frame given
          (awdl_frame seq awdl_seq (ethernet da sa (high ∷ low ∷ []) payload))
        ≡ some (ethernet da sa (high ∷ low ∷ []) payload ∷ [])
  unfolding try_deliver_awdl_data_frame awdl_frame get_hdrlen has_tods has_fromds
  awdl_read_back seq awdl_seq (six a b c d e f) (six a' b' c' d' e' f') =
      let da : List ℕ = a ∷ b ∷ c ∷ d ∷ e ∷ f ∷ [] in
      let sa : List ℕ = a' ∷ b' ∷ c' ∷ d' ∷ e' ∷ f' ∷ [] in
      let frame = awdl_frame seq awdl_seq (ethernet da sa (high ∷ low ∷ []) payload) in
      let kind : be_word (be16 (be_word (high * 256 + low))) ≡ high ∷ low ∷ [] =
        ap (λ (w : List ℕ). be_word (be16 w)) (word-be high low h l) ∙ word-be high low h l in
      rw (ltb-of_le (length frame) 40 (omega arith), room)
        (ap (λ (w : List ℕ). some (ethernet da sa w payload ∷ [])) kind)

  -- An Ethernet frame of 14 to 4096 bytes that one peer sends is consumed by the other as an AWDL
  -- frame and handed to its AWDL interface as it was, whatever the sequence numbers are, if the
  -- driver, memory and a packet are there. Both sequence numbers move on by one.
  pub awdl_round :
      (s : AwdlSender) (da sa : List ℕ)
      → s.attached ≡ true
      → length da ≡ 6
      → length sa ≡ 6
      → length payload ≤ 4082
      → let m = ethernet da sa (high ∷ low ∷ []) payload in
        (f : List ℕ) × ((tx_awdl_data_frame true s m).0 ≡ some f)
        × (try_deliver_awdl_data_frame given f ≡ some (m ∷ []))
        × ((tx_awdl_data_frame true s m).1.tx_seq ≡ (s.tx_seq + 1) % 2 ^ 16)
        × ((tx_awdl_data_frame true s m).1.awdl_seq ≡ (s.awdl_seq + 1) % 2 ^ 16)
  awdl_round s da sa on d m small =
      let frame : List ℕ = ethernet da sa (high ∷ low ∷ []) payload in
      let size : length frame ≡ 14 + length payload = omega (
        arith,
        length-append da (sa ++ high ∷ low ∷ payload),
        length-append sa (high ∷ low ∷ payload),
      ) in
      let sends = tx_awdl-accepts s frame on (omega arith) (omega arith) in
      (
        awdl_frame s.tx_seq s.awdl_seq frame,
        ap (λ (r : Option (List ℕ) × AwdlSender). r.0) sends,
        awdl_read_back s.tx_seq s.awdl_seq (length-Six da d) (length-Six sa m),
        ap (λ (r : Option (List ℕ) × AwdlSender). r.1.tx_seq) sends,
        ap (λ (r : Option (List ℕ) × AwdlSender). r.1.awdl_seq) sends,
      )
