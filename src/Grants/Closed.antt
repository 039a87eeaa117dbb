-- ===== src/Grants/Closed.antt =====
-- kanbrick-discovery/src/grants.rs: the nodes of a scope that is not active.
use kanbrick_v.Common.{
  ◌≡◌, refl, ◌++◌, arith, Text, List, [], ◌∷◌, Bool, true, false, not, ◌&&◌, some, All, text_beq,
  Bool-cases, inl, inr, text_eq, map, head?, retain,
}
use kanbrick_v.Grants.{
  is_active, parse_scope_status, scope_status_text, revoked, scope_expired, GrantedScope,
}
use kanbrick_v.Grants.Store.{ScopeNode, scope_from_row}
use kanbrick_v.Grants.Revoked.{update, has_id, revoked_node}

-- The node is not of the scope, or it is not active.
abbrev pub is_closed : Text → ScopeNode → Bool
is_closed id n = not (has_id id n && is_active (parse_scope_status n.status))

abbrev pub Closed : Text → List ScopeNode → Type 0
Closed id = All (λ n. is_closed id n ≡ true)

pub Closed-append :
    (id : Text) (xs : List ScopeNode) (n : ScopeNode)
    → Closed id xs
    → is_closed id n ≡ true
    → Closed id (xs ++ n ∷ [])
Closed-append id [] n h k = (k, tt)
Closed-append id (x ∷ xs) n h k = (h.0, Closed-append id xs n h.1 k)

pub Closed-update :
    (id : Text) (p : ScopeNode → Bool) (f : ScopeNode → ScopeNode) (xs : List ScopeNode)
    → ((n : ScopeNode) → is_closed id (f n) ≡ true)
    → Closed id xs
    → Closed id (update p f xs)
Closed-update id p f [] k h = tt
Closed-update id p f (x ∷ xs) k h = elim (Bool-cases (p x)) [
  | inl mine ↦ rw mine (k x, Closed-update id p f xs k h.1)
  | inr other ↦ rw other (h.0, Closed-update id p f xs k h.1)
]

pub revoked_closed :
    (id : Text) (n : ScopeNode) → n.status ≡ scope_status_text revoked → is_closed id n ≡ true
unfolding parse_scope_status scope_status_text text_beq
revoked_closed id n h = rw h (ground arith)

pub expired_closed :
    (id : Text) (n : ScopeNode) → n.status ≡ scope_status_text scope_expired → is_closed id n ≡ true
unfolding parse_scope_status scope_status_text text_beq
expired_closed id n h = rw h (ground arith)

abbrev pub expired_node : Text → ScopeNode → ScopeNode
expired_node at n = record n { status = scope_status_text scope_expired; expired_at = some at }

-- The scope that is read of closed nodes is not active.
pub head-Closed :
    (id : Text) (nodes : List ScopeNode) (s : GrantedScope)
    → Closed id nodes
    → head? (map scope_from_row (retain (has_id id) nodes)) ≡ some s
    → is_active s.status ≡ false
unfolding scope_from_row
head-Closed id [] s k h = cc
head-Closed id (n ∷ nodes) s k h = elim (Bool-cases (has_id id n)) [
  | inl mine ↦ let e : some (scope_from_row n) ≡ some s = rw mine at h in ground (arith, k.0)
  | inr other ↦ head-Closed id nodes s k.1 (rw other at h)
]

pub Closed-revoked :
    (id by reason at : Text) (nodes : List ScopeNode)
    → Closed id (update (has_id id) (revoked_node by reason at) nodes)
Closed-revoked id by reason at [] = tt
Closed-revoked id by reason at (n ∷ nodes) = elim (Bool-cases (has_id id n)) [
  | inl mine ↦
      rw mine
        (revoked_closed id (revoked_node by reason at n) refl, Closed-revoked id by reason at nodes)
  | inr other ↦ rw other (rw other refl, Closed-revoked id by reason at nodes)
]
