-- ===== src/Alerts/Keys.antt =====
-- The keys of the map of active conditions, "vpsid|type|key" (backend/alerts.go, line 209).
use beacle.Prelude.{
  Text, Map, insert, erase, lookup-insert, lookup-erase, Bool, true, false, [], ◌∷◌, ◌++◌,
  if◌then◌else◌, text_eq, arith, ◌≡◌, ◌≢◌,
}
use beacle.Alerts.{active_key, is_active}

-- The text has no "|": identifiers are hexadecimal, and alert types are words.
abbrev pub Plain : Text → Type 0
Plain [] = Unit
Plain (c ∷ cs) = (c ≢ b'|') × Plain cs

split_at_bar :
    (a b r s : Text) → Plain a → Plain b → a ++ (b'|' ∷ r) ≡ b ++ (b'|' ∷ s) → (a ≡ b) × (r ≡ s)
split_at_bar [] [] r s p q h = ground arith
split_at_bar [] (y ∷ b) r s p q h = ground arith
split_at_bar (x ∷ a) [] r s p q h = ground arith
split_at_bar (x ∷ a) (y ∷ b) r s p q h = ground (arith, split_at_bar a b r s p.1 q.1)

-- Two conditions with plain identifiers and types have one key only if they are one condition,
-- whatever bytes their last parts hold.
pub active_key_injective :
    (a b k l x y : Text)
    → Plain a
    → Plain b
    → Plain k
    → Plain l
    → active_key a k x ≡ active_key b l y
    → (a ≡ b) × (k ≡ l) × (x ≡ y)
unfolding active_key
active_key_injective a b k l x y pa pb pk pl h =
    let outer = split_at_bar a b _ _ pa pb h in
    let inner = split_at_bar k l x y pk pl outer.1 in (outer.0, inner.0, inner.1)

pub is_active-insert :
    (id j : Text) (m : Map Bool)
    → is_active j (insert id true m) ≡ (if text_eq id j then true else is_active j m)
unfolding is_active
is_active-insert id j m = ground (arith, lookup-insert id j true m)

pub is_active-erase :
    (id j : Text) (m : Map Bool)
    → is_active j (erase id m) ≡ (if text_eq id j then false else is_active j m)
unfolding is_active
is_active-erase id j m = ground (arith, lookup-erase id j m)
