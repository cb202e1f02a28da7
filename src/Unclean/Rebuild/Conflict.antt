-- ===== src/Unclean/Rebuild/Conflict.antt =====
-- What `order_conflict` of the result can say.
use tunnel2tunnel.Base.{
  ◌≡◌, refl, sym, Bool, true, false, Option, List, Text, option_eq, list_eq, nat_eq,
}
use tunnel2tunnel.Base.Result.{
  Result, ok, err, value_error, called_process_error, assertion_error, index_error, attribute_error,
  key_error, username_required, multiple_urls, history_master_error, unclean_merge_detected,
  ok-injective,
}
use tunnel2tunnel.Base.Exec.Returns.{
  Returns, Returns-pure, Returns-bind, Returns-then, Returns-lift, Returns-map,
}
use tunnel2tunnel.Split.Host.{Host}
use tunnel2tunnel.Unclean.Info.{CommitInfo}
use tunnel2tunnel.Unclean.Order.{check_order_consistency}
use tunnel2tunnel.Unclean.Rebuild.{
  Reconstruction, order_conflict, plan, reconstruct_from, reconstruct_unclean,
}

unforced_conflict : (r : Result (Unit {0})) {b : Bool} → order_conflict false r ≡ ok b → b ≡ false
unfolding order_conflict
unforced_conflict (ok u) h = sym (ok-injective h)
unforced_conflict (err (value_error x y)) h = cc
unforced_conflict (err called_process_error) h = cc
unforced_conflict (err assertion_error) h = cc
unforced_conflict (err index_error) h = cc
unforced_conflict (err attribute_error) h = cc
unforced_conflict (err key_error) h = cc
unforced_conflict (err username_required) h = cc
unforced_conflict (err (multiple_urls name)) h = cc
unforced_conflict (err (history_master_error message)) h = cc
unforced_conflict (err (unclean_merge_detected s p t)) h = cc

order_conflict-check :
    (force : Bool) (clean_infos history_infos : List CommitInfo) (order : List Text) {b : Bool}
    → order_conflict force (check_order_consistency clean_infos history_infos order force) ≡ ok b
    → b ≡ false
unfolding order_conflict check_order_consistency
order_conflict-check true clean_infos history_infos order h = sym (ok-injective h)
order_conflict-check false clean_infos history_infos order h =
    unforced_conflict (check_order_consistency clean_infos history_infos order false) h

module _ (host : Host) where
  plan-unforced :
      (base_branch main_branch : Text) (clean_tip history_tip : Option Text) (force : Bool)
      → Returns
          (λ p. p.order_passed_over ≡ false)
          (plan host base_branch main_branch clean_tip history_tip force)
  unfolding plan
  plan-unforced base_branch main_branch clean_tip history_tip force = Returns-then _ _ λ _.
      Returns-then _ _ λ _. Returns-then _ _ λ _. Returns-then _ _ λ _. Returns-then _ _ λ _.
        Returns-then _ _ λ _. Returns-then _ _ λ infos. Returns-then _ _ λ _. Returns-then _ _ λ _.
          Returns-then _ _ λ order. Returns-then _ _ λ _. Returns-then _ _ λ _.
            Returns-bind _ _
              (Returns-map (λ b. order_conflict-check force infos.0 infos.1 order) (Returns-lift _))
              λ passed_over kept. Returns-then _ _ λ _. Returns-then _ _ λ _. Returns-then _ _ λ _.
                Returns-then _ _
                  λ _. Returns-then _ _ λ _. Returns-then _ _ λ _. Returns-pure _ kept

  reconstruct_from-unforced :
      (missing : Bool) (base_branch main_branch : Text) (allowed force dry_run : Bool)
      (clean_tip history_tip : Option Text)
      → Returns
          (λ r. r.order_conflict ≡ false)
          (reconstruct_from host missing base_branch main_branch allowed force dry_run clean_tip
            history_tip)
  unfolding reconstruct_from
  reconstruct_from-unforced true base_branch main_branch allowed force dry_run clean_tip
        history_tip =
      Returns-pure _ refl
  reconstruct_from-unforced false base_branch main_branch allowed force dry_run clean_tip
        history_tip =
      Returns-bind _ _ (plan-unforced base_branch main_branch clean_tip history_tip force)
        λ planned kept. Returns-then _ _ λ _. Returns-then _ _ λ _. Returns-then _ _ λ _.
          Returns-then _ _ λ _.
            Returns-then _ _ λ _. Returns-then _ _ λ _. Returns-then _ _ λ _. Returns-pure _ kept

  -- A reconstruction that returns never reports an order conflict, forced or not.
  pub reconstruct_unclean-order_conflict :
      (base_branch main_branch : Text) (allowed force dry_run : Bool) (refs refs' : host.git.Refs)
      (r : Reconstruction)
      → reconstruct_unclean host base_branch main_branch allowed force dry_run refs ≡ (ok r, refs')
      → r.order_conflict ≡ false
  unfolding reconstruct_unclean
  reconstruct_unclean-order_conflict base_branch main_branch allowed force dry_run refs refs' r h =
      run.at refs refs' r h
    where
      run :
          Returns
            (λ r. r.order_conflict ≡ false)
            (reconstruct_unclean host base_branch main_branch allowed force dry_run)
      run = Returns-then _ _ λ clean_tip. Returns-then _ _ λ history_tip.
          reconstruct_from-unforced _ base_branch main_branch allowed force dry_run clean_tip
            history_tip
