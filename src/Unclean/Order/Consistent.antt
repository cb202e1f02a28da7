-- ===== src/Unclean/Order/Consistent.antt =====
-- When the order of the clean and history branches is refused.
use tunnel2tunnel.Base.{
  ℕ, ◌≡◌, refl, ap, sym, ◌∙◌, ◌↔◌, Bool, true, false, ◌&&◌, ◌||◌, Option, none, some, List, [], ◌∷◌,
  Text, arith, ◌==◌, list_eq, nat_eq, if◌then◌else◌, ltb, leb, all,
}
use tunnel2tunnel.Base.Result.{Result, ok, err, value_error, ◌>>◌}
use tunnel2tunnel.Unclean.Info.{CommitInfo}
use tunnel2tunnel.Unclean.Order.{place, check_side, check_order_consistency}

-- The places of the commits that have one.
abbrev pub places : List Text → List CommitInfo → List ℕ
places order [] = []
places order (info ∷ infos) =
    let rest = places order infos in elim (place order info) [ none ↦ rest | some i ↦ i ∷ rest ]

-- Each number is at most every later one.
abbrev pub ascending : List ℕ → Bool
ascending [] = true
ascending (n ∷ ns) = all (leb n) ns && ascending ns

abbrev is_ok : Result (Unit {0}) → Bool
is_ok (ok _) = true
is_ok (err _) = false

abbrev bounded : Option (ℕ × Text) → List ℕ → Bool
bounded none ns = true
bounded (some (last, sha)) ns = all (leb last) ns

-- A bound on the first of ascending numbers bounds all.
leb-all : (m n : ℕ) (ns : List ℕ) → leb m n ≡ true → all (leb n) ns ≡ true → all (leb m) ns ≡ true
leb-all m n [] below all_above = refl
leb-all m n (k ∷ ns) below all_above = ground (arith, leb-all m n ns below)

-- The bound of the last place, and of the places behind the next, is the bound of them all.
step-ascending :
    (last pos : ℕ) (ns : List ℕ) (r : Bool)
    → r ≡ (all (leb pos) ns && ascending ns)
    → (if ltb pos last then false else r) ≡ (all (leb last) (pos ∷ ns) && ascending (pos ∷ ns))
step-ascending last pos ns r h = ground (arith, leb-all last pos ns)

is_ok-if :
    (b : Bool) (e : Result (Unit {0})) (r : Result (Unit {0}))
    → is_ok e ≡ false
    → is_ok (if b then e else r) ≡ (if b then false else is_ok r)
is_ok-if true e r h = h
is_ok-if false e r h = refl

check_side-ascending :
    (order : List Text) (infos : List CommitInfo) (last : Option (ℕ × Text))
    → is_ok (check_side order infos last)
      ≡ (bounded last (places order infos) && ascending (places order infos))
unfolding check_side
check_side-ascending order [] none = refl
check_side-ascending order [] (some x) = refl
check_side-ascending order (info ∷ infos) last =
    go last (place order info) refl (check_side-ascending order infos)
  where
    go :
        (last : Option (ℕ × Text)) (found : Option ℕ)
        → place order info ≡ found
        → ((next : Option (ℕ × Text))
            → is_ok (check_side order infos next)
              ≡ (bounded next (places order infos) && ascending (places order infos)))
        → is_ok (check_side order (info ∷ infos) last)
          ≡ (bounded last (places order (info ∷ infos)) && ascending (places order (info ∷ infos)))
    go last none e rest = rw (e, check_side, places) (rest last)
    go none (some pos) e rest = rw (e, check_side, places) (rest (some (pos, info.sha)))
    go (some (last_pos, last_sha)) (some pos) e rest =
        let next = check_side order infos (some (pos, info.sha)) in
        rw (e, check_side, places)
          (is_ok-if (ltb pos last_pos) (err (value_error info.sha last_sha)) next refl
            ∙ step-ascending last_pos pos (places order infos) (is_ok next)
                (rest (some (pos, info.sha))))

ok_of_is_ok : (r : Result (Unit {0})) → is_ok r ≡ true → r ≡ ok tt
ok_of_is_ok (ok u) h = refl
ok_of_is_ok (err e) h = cc

is_ok-then : (a b : Result (Unit {0})) → is_ok (a >> b) ≡ (is_ok a && is_ok b)
is_ok-then (ok u) b = refl
is_ok-then (err e) b = refl

check_order-is_ok :
    (clean_infos history_infos : List CommitInfo) (order : List Text) (force : Bool)
    → is_ok (check_order_consistency clean_infos history_infos order force) ≡ (
        force
        || (order == []
            || (ascending (places order clean_infos) && ascending (places order history_infos))))
unfolding check_order_consistency
check_order-is_ok clean_infos history_infos order true = refl
check_order-is_ok clean_infos history_infos order false = go (order == [])
  where
    go :
        (b : Bool)
        → is_ok (
            if b
            then ok tt
            else check_side order clean_infos none >> check_side order history_infos none)
          ≡ (b || (ascending (places order clean_infos) && ascending (places order history_infos)))
    go true = refl
    go false =
        rw
          (
            is_ok-then (check_side order clean_infos none) (check_side order history_infos none),
            check_side-ascending order clean_infos none,
            check_side-ascending order history_infos none,
          )
          refl

-- A reconstruction is let through exactly if it is forced, if no order is known, or if on each
-- branch the places of the known sources ascend, each compared with every later one. (The code
-- compares neighbours only.)
pub check_order_consistency-ascending :
    (clean_infos history_infos : List CommitInfo) (order : List Text) (force : Bool)
    → (check_order_consistency clean_infos history_infos order force ≡ ok tt) ↔ (
        (force
          || (order == []
              || (ascending (places order clean_infos) && ascending (places order history_infos))))
        ≡ true)
check_order_consistency-ascending clean_infos history_infos order force =
    let known = check_order-is_ok clean_infos history_infos order force in
    (λ h. sym known ∙ ap is_ok h, λ h. ok_of_is_ok _ (known ∙ h))
