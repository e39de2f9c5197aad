-- ===== src/Bits/Table.antt =====
-- A Boolean fact about bytes, checked at each of them.
use airport_rtw.Base.{ℕ, zero, suc, ◌+◌, ◌≤◌, ◌≡◌, ap, ◌∙◌, Bool, true, ◌&&◌, arith}

-- The test at `from` and at the `more` numbers behind it.
unfoldable pub holds_from : (test : ℕ → Bool) → (from more : ℕ) → Bool
holds_from test from zero = test from
holds_from test from (suc more) = test from && holds_from test (from + 1) more

pub table_entry :
    (test : ℕ → Bool) (from more n : ℕ)
    → holds_from test from more ≡ true
    → from ≤ n
    → n ≤ from + more
    → test n ≡ true
unfolding holds_from
table_entry test from zero n h low high = ap test {x = n} {y = from} (omega arith) ∙ h
table_entry test from (suc more) n h low high = ground (arith, table_entry test (from + 1) more n)
