-- ===== src/Air/Agree.antt =====
-- Block acknowledgement between two stations: `sendAddbaRequest`, `handleBackAction` and
-- `sendAddbaResponse` of src/kext/RTW88IEEE80211.cpp.
use Prim.Native.Nat.{bit_and}
use airport_rtw.Base.{
  ℕ, ◌+◌, ◌*◌, ◌/◌, ◌%◌, ◌^◌, ◌<◌, ◌≡◌, refl, ap, ◌∙◌, Bool, true, List, ◌∷◌, ◌++◌, ◌==◌,
  if◌then◌else◌, arith, get_or, drop,
}
use airport_rtw.Bits.Laws.{bit_and-ones_lem}
use airport_rtw.Reorder.{ba_setup}
use airport_rtw.Wpa.{le16}
use airport_rtw.Wpa.Unwrap.{drop-append}
use airport_rtw.Mlme.{Engine, emit, answer_addba}
use airport_rtw.Mlme.Rx.{handle_back_action}
use airport_rtw.Air.Bytes.{le_word}
use airport_rtw.Air.Manage.{
  Station, header, ba_param, next_dialog, send_addba_request, send_addba_response,
}
use airport_rtw.Air.Assoc.{IsStation, length-header}

word-le : (x : ℕ) → x < 65536 → x % 256 + x / 256 % 256 * 2 ^ 8 ≡ x
word-le x h = omega arith

ba_param-lt : (amsdu tid size : ℕ) → ba_param amsdu tid size < 65536
ba_param-lt amsdu tid size = omega arith

-- The fields of a parameter word, read back.
fields :
    (amsdu tid size x : ℕ)
    → x ≡ ba_param amsdu tid size
    → (bit_and (x / 2 ^ 2) 0xf ≡ tid % 16) × (bit_and (x / 2 ^ 6) 0x3ff ≡ size % 1024)
fields amsdu tid size x e = (
  (bit_and-ones_lem (x / 2 ^ 2)).0 ∙ omega (arith, e),
  (bit_and-ones_lem (x / 2 ^ 6)).1 ∙ omega (arith, e),
)

abbrev asked : (tid : ℕ) → Station → List ℕ
asked tid s =
    3 ∷ 0 ∷ next_dialog s.ba_dialog ∷ le_word (ba_param 0 tid s.ba_buf_size)
    ++ (0 ∷ 0 ∷ le_word (s.data_seq % 4096 * 16))

request_body :
    (tid : ℕ) (s : Station) → IsStation s → drop 24 (send_addba_request tid s).0 ≡ asked tid s
unfolding send_addba_request
request_body tid s v =
    drop-append (header 0x00d0 s.target.bssid s.mac s.target.bssid s.tx_seq) (asked tid s) 24 (
      length-header 0x00d0 s.tx_seq s.target.bssid s.mac s.target.bssid v.bssid_six v.mac_six
        v.bssid_six)

abbrev answered : (tid dialog req_param ba_timeout : ℕ) → Station → List ℕ
answered tid dialog req_param ba_timeout s =
    3 ∷ 1 ∷ dialog ∷ 0 ∷ 0 ∷ le_word (ba_param req_param tid s.ba_buf_size) ++ le_word ba_timeout

response_body :
    (tid dialog req_param ba_timeout : ℕ) (s : Station)
    → IsStation s
    → drop 24 (send_addba_response tid dialog req_param ba_timeout s).0
      ≡ answered tid dialog req_param ba_timeout s
unfolding send_addba_response
response_body tid dialog req_param ba_timeout s v =
    drop-append (header 0x00d0 s.target.bssid s.mac s.target.bssid s.tx_seq)
      (answered tid dialog req_param ba_timeout s) 24
      (length-header 0x00d0 s.tx_seq s.target.bssid s.mac s.target.bssid v.bssid_six v.mac_six
        v.bssid_six)

-- The peer's side of a request: the window, and the answer that it gives.
abbrev prepared : (granted : Bool) (tid ssn size : ℕ) → Engine → Engine
prepared granted tid ssn size e =
    emit answer_addba (record e { windows = (ba_setup granted tid ssn size e.windows).1 })

on_request :
    (granted : Bool) (tid : ℕ) (s : Station) (e : Engine)
    → handle_back_action granted (asked tid s) e
      ≡ prepared granted (tid % 16) (s.data_seq % 4096) (s.ba_buf_size % 1024) e
unfolding handle_back_action
on_request granted tid s e =
    let word = word-le (ba_param 0 tid s.ba_buf_size) (ba_param-lt 0 tid s.ba_buf_size) in
    let field = fields 0 tid s.ba_buf_size _ word in
    let ssn : (s.data_seq % 4096 * 16 % 256 + s.data_seq % 4096 * 16 / 256 % 256 * 2 ^ 8) / 2 ^ 4
        ≡ s.data_seq % 4096 =
      omega arith in
    λ i. prepared granted (field.0 i) (ssn i) (field.1 i) e

on_response :
    (granted : Bool) (tid dialog req_param ba_timeout : ℕ) (s : Station) (e : Engine)
    → handle_back_action granted (answered tid dialog req_param ba_timeout s) e
      ≡ (if tid % 16 == 0 then record e { tx_ba = true } else e)
unfolding handle_back_action
on_response granted tid dialog req_param ba_timeout s e =
    let word =
      word-le (ba_param req_param tid s.ba_buf_size) (ba_param-lt req_param tid s.ba_buf_size) in
    let field = fields req_param tid s.ba_buf_size _ word in rw (field.0) refl

-- The answer of `handleBackAction` to a request.
abbrev pub answer_to : (request : List ℕ) → Station → List ℕ
answer_to request p =
    (send_addba_response (bit_and (le16 (drop 3 request) / 2 ^ 2) 0xf) (get_or request 2 0)
      (le16 (drop 3 request)) (le16 (drop 5 request)) p).0

on_answer :
    (granted : Bool) (s p : Station) (e : Engine) (tid : ℕ)
    → IsStation p
    → tid ≡ 0
    → handle_back_action granted
        (drop 24
          (send_addba_response tid
            (get_or (asked 0 s) 2 0)
            (le16 (drop 3 (asked 0 s)))
            (le16 (drop 5 (asked 0 s)))
            p).0)
        e
      ≡ record e { tx_ba = true }
on_answer granted s p e tid w z =
    let dialog = get_or (asked 0 s) 2 0 in
    let param = le16 (drop 3 (asked 0 s)) in
    let timeout = le16 (drop 5 (asked 0 s)) in
    ap
      (λ (t : ℕ).
        handle_back_action granted (drop 24 (send_addba_response t dialog param timeout p).0) e)
      z
    ∙ ap (λ (b : List ℕ). handle_back_action granted b e) (response_body 0 dialog param timeout p w)
    ∙ on_response granted 0 dialog param timeout p e

-- Block acknowledgement is agreed on: from the request of one station for its TID 0, whatever its
-- counters are, the peer opens a window for that TID, as `rxBaSetup` does, of the size that was
-- asked for, which starts at the number of the next data frame of the station that asks; a failed
-- allocation leaves the peer without it. When the peer's answer to that request comes back, the
-- station marks its frames for aggregation.
pub addba_agreed :
    (granted granted' : Bool) (s p : Station) (e peer : Engine)
    → IsStation s
    → IsStation p
    → let request = drop 24 (send_addba_request 0 s).0 in
      ((handle_back_action granted request peer).windows
        ≡ (ba_setup granted 0 (s.data_seq % 4096) (s.ba_buf_size % 1024) peer.windows).1)
      × (handle_back_action granted' (drop 24 (answer_to request p)) e ≡ record e { tx_ba = true })
addba_agreed granted granted' s p e peer v w =
    let body = request_body 0 s v in
    let word = word-le (ba_param 0 0 s.ba_buf_size) (ba_param-lt 0 0 s.ba_buf_size) in
    let field = fields 0 0 s.ba_buf_size _ word in
    (
      ap (λ (b : List ℕ). (handle_back_action granted b peer).windows) body
          ∙ ap (λ (x : Engine). x.windows) (on_request granted 0 s peer),
      ap (λ (b : List ℕ). handle_back_action granted' (drop 24 (answer_to b p)) e) body
          ∙ on_answer granted' s p e _ w field.0,
    )
