-- ===== src/Air/Elements.antt =====
-- Information elements, as src/kext/RTW88IEEE80211.cpp writes them and as `copyTargetRsnIE` walks
-- over them.
use airport_rtw.Base.{
  ℕ, zero, suc, ◌+◌, ◌%◌, ◌≤◌, ◌<◌, ◌≡◌, refl, ap, ap₂, ◌∙◌, Bool, Option, none, some, List, [],
  ◌∷◌, ◌++◌, ◌==◌, ltb, if◌then◌else◌, arith, length, length-append, get_or, take, drop,
}
use airport_rtw.Wpa.Unwrap.{take-append, drop-append}

-- An element: its number, the length of its body, and the body.
unfoldable pub element : (id : ℕ) → (body : List ℕ) → List ℕ
element id body = id ∷ length body % 256 ∷ body

-- The loop of `copyTargetRsnIE` over what is left, for the element `id`. Every round takes at
-- least two bytes, so that the length is enough fuel.
unfoldable pub find_from : (fuel : ℕ) → (id : ℕ) → (left : List ℕ) → Option (List ℕ)
find_from zero id left = none
find_from (suc fuel) id left =
    let n = get_or left 1 0 + 2 in
    let later = find_from fuel id (drop n left) in
    if ltb (length left) 2
    then none
    else if ltb (length left) n
    then none
    else if get_or left 0 0 == id
    then some (take n left)
    else later

unfoldable pub find_element : (id : ℕ) → (ies : List ℕ) → Option (List ℕ)
unfolding find_from
find_element id ies = find_from (length ies) id ies

taken-element :
    (i n : ℕ) (body rest : List ℕ)
    → n ≡ suc (suc (length body))
    → (take n (element i body ++ rest) ≡ element i body) × (drop n (element i body ++ rest) ≡ rest)
unfolding element
taken-element i n body rest e = rw e (
  ap (λ (t : List ℕ). i ∷ length body % 256 ∷ t) (take-append body rest (length body) refl),
  drop-append body rest (length body) refl,
)

whole :
    (n total : ℕ) {A : Type 0} (same : Bool) (hit later : Option A)
    → 2 ≤ total
    → n ≤ total
    → (if ltb total 2 then none else if ltb total n then none else if same then hit else later)
      ≡ (if same then hit else later)
whole n total same hit later two long = ground arith

find_from-none : (fuel id : ℕ) → find_from fuel id [] ≡ none
unfolding find_from
find_from-none zero id = refl
find_from-none (suc fuel) id = refl

-- One element in front: it is found, or passed over.
find_from-element :
    (fuel id i : ℕ) (body rest : List ℕ)
    → length body < 256
    → find_from (suc fuel) id (element i body ++ rest)
      ≡ (if i == id then some (element i body) else find_from fuel id rest)
unfolding find_from element
find_from-element fuel id i body rest small =
    let n = length body % 256 + 2 in
    let cut = taken-element i n body rest (omega arith) in
    whole n (length (element i body ++ rest)) (i == id) (some (take n (element i body ++ rest)))
      (find_from fuel id (drop n (element i body ++ rest))) (omega arith)
      (omega (arith, length-append body rest))
    ∙ ap₂ (λ t later. if i == id then some t else find_from fuel id later) cut.0 cut.1

-- Elements one behind the other, and the first with a number.
unfoldable pub elements : List (ℕ × List ℕ) → List ℕ
elements [] = []
elements ((i, body) ∷ es) = element i body ++ elements es

unfoldable pub first : ℕ → List (ℕ × List ℕ) → Option (List ℕ)
first id [] = none
first id ((i, body) ∷ es) =
    let later = first id es in if i == id then some (element i body) else later

unfoldable pub AreShort : List (ℕ × List ℕ) → Type 0
AreShort [] = Unit
AreShort ((i, body) ∷ es) = (length body < 256) × AreShort es

find_from-elements :
    (es : List (ℕ × List ℕ)) (fuel id : ℕ)
    → AreShort es
    → length es ≤ fuel
    → find_from fuel id (elements es) ≡ first id es
unfolding elements first AreShort
find_from-elements [] zero id v h = find_from-none zero id
find_from-elements [] (suc fuel) id v h = find_from-none (suc fuel) id
find_from-elements ((i, body) ∷ es) zero id v h = absurd (omega arith)
find_from-elements ((i, body) ∷ es) (suc fuel) id v h =
    find_from-element fuel id i body (elements es) v.0
    ∙ ap (λ later. if i == id then some (element i body) else later)
        (find_from-elements es fuel id v.1 (omega arith))

length-elements : (es : List (ℕ × List ℕ)) → length es ≤ length (elements es)
unfolding elements element
length-elements [] = omega arith
length-elements ((i, body) ∷ es) =
    omega (arith, length-elements es, length-append body (elements es))

-- The walk finds the first element with the number, and none if there is none.
pub find_element-elements :
    (es : List (ℕ × List ℕ)) (id : ℕ) → AreShort es → find_element id (elements es) ≡ first id es
unfolding find_element
find_element-elements es id v =
    find_from-elements es (length (elements es)) id v (length-elements es)
