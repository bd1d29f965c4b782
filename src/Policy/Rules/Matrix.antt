-- ===== src/Policy/Rules/Matrix.antt =====
-- What the default rules of internal/policy/rules.go permit, role by role.
use chain_pulse.Prelude.{
  true, false, eq_iff, ◌≡◌, refl, ◌↔◌, ◌⊎◌, inl, inr, ◌≢◌, arith, any, not_true, ℤ, eq_true,
  ne_false, any_sound,
}
use chain_pulse.Identity.{role_admin, role_supplier, role_warehouse_manager, role_analyst}
use chain_pulse.Policy.{
  FloatOps, Rule, Input, Race, new_engine, evaluate, effect_allow, effect_deny, action_create,
  action_read, action_update,
}
use chain_pulse.Policy.Decisions.{fires, SameTenant, InTime, evaluate-allow_iff}
use chain_pulse.Policy.Rules.{
  default_rules, allow_admin, allow_analyst_read, allow_supplier_own_shipments,
  allow_supplier_read_own_inventory, allow_wm_orders, allow_wm_read_inventory,
  allow_wm_write_own_region,
}

module _ {F : Type 0} where
  -- The permissions of each role within its tenant. No order value is mentioned.
  pub data Permitted (inp : Input F) : Type 0 where
    an_admin : inp.actor.role ≡ role_admin → Permitted inp
    an_analyst_reads : inp.actor.role ≡ role_analyst → inp.action ≡ action_read → Permitted inp
    a_manager_reads_inventory :
        inp.actor.role ≡ role_warehouse_manager
        → inp.resource.type ≡ "inventory"
        → inp.action ≡ action_read
        → Permitted inp
    a_manager_writes_own_region :
        inp.actor.role ≡ role_warehouse_manager
        → inp.resource.type ≡ "inventory"
        → (inp.action ≡ action_create) ⊎ (inp.action ≡ action_update)
        → inp.resource.region ≢ ""
        → inp.resource.region ≡ inp.actor.region
        → Permitted inp
    a_manager_handles_orders :
        inp.actor.role ≡ role_warehouse_manager
        → inp.resource.type ≡ "order"
        → (inp.action ≡ action_read) ⊎ (inp.action ≡ action_create)
        → Permitted inp
    a_supplier_owns_shipment :
        inp.actor.role ≡ role_supplier
        → inp.resource.type ≡ "shipment"
        → inp.resource.owner_supplier_id ≢ ""
        → inp.resource.owner_supplier_id ≡ inp.actor.supplier_id
        → Permitted inp
    a_supplier_reads_own_inventory :
        inp.actor.role ≡ role_supplier
        → inp.resource.type ≡ "inventory"
        → inp.action ≡ action_read
        → inp.resource.owner_supplier_id ≢ ""
        → inp.resource.owner_supplier_id ≡ inp.actor.supplier_id
        → Permitted inp

  Permitted-fires :
      (fl : FloatOps F) (inp : Input F)
      → Permitted inp
      → any (fires effect_allow inp) (default_rules fl) ≡ true
  unfolding default_rules
  Permitted-fires fl inp (an_admin r) = rw r refl
  Permitted-fires fl inp (an_analyst_reads r a) = rw (r, a) refl
  Permitted-fires fl inp (a_manager_reads_inventory r t a) = rw (r, t, a) refl
  Permitted-fires fl inp (a_manager_writes_own_region r t (inl a) n e) =
      rw (r, t, a, ne_false n, eq_true e) refl
  Permitted-fires fl inp (a_manager_writes_own_region r t (inr a) n e) =
      rw (r, t, a, ne_false n, eq_true e) refl
  Permitted-fires fl inp (a_manager_handles_orders r t (inl a)) = rw (r, t, a) refl
  Permitted-fires fl inp (a_manager_handles_orders r t (inr a)) = rw (r, t, a) refl
  Permitted-fires fl inp (a_supplier_owns_shipment r t n e) = rw (r, t, ne_false n, eq_true e) refl
  Permitted-fires fl inp (a_supplier_reads_own_inventory r t a n e) =
      rw (r, t, a, ne_false n, eq_true e) refl

  -- The one deny rule never fires on a permitted input.
  Permitted-no_deny :
      (fl : FloatOps F) (inp : Input F)
      → Permitted inp
      → any (fires effect_deny inp) (default_rules fl) ≡ false
  unfolding default_rules
  Permitted-no_deny fl inp (an_admin r) = rw r (ground arith)
  Permitted-no_deny fl inp (an_analyst_reads r a) = rw (r, a) (ground arith)
  Permitted-no_deny fl inp (a_manager_reads_inventory r t a) = rw (r, t) refl
  Permitted-no_deny fl inp (a_manager_writes_own_region r t a n e) = rw (r, t) refl
  Permitted-no_deny fl inp (a_manager_handles_orders r t (inl a)) = rw (r, t, a) refl
  Permitted-no_deny fl inp (a_manager_handles_orders r t (inr a)) = rw (r, t, a) refl
  Permitted-no_deny fl inp (a_supplier_owns_shipment r t n e) = rw (r, t) refl
  Permitted-no_deny fl inp (a_supplier_reads_own_inventory r t a n e) = rw (r, t) refl

  module _ (fl : FloatOps F) (inp : Input F) where
    open inp.actor use {role}
    open inp.resource use {type, region, owner_supplier_id}

    abbrev Grants : Rule F → Type 0
    Grants r = fires effect_allow inp r ≡ true → Permitted inp

    manager_writes_own_region : Grants (allow_wm_write_own_region fl)
    unfolding allow_wm_write_own_region
    manager_writes_own_region h =
        a_manager_writes_own_region (ground (arith, eq_iff role role_warehouse_manager))
          (ground (arith, eq_iff type "inventory"))
          (ground (arith, eq_iff inp.action action_create, eq_iff inp.action action_update))
          (ground (arith, eq_iff region "")) (ground (arith, eq_iff region inp.actor.region))

    manager_handles_orders : Grants (allow_wm_orders fl)
    unfolding allow_wm_orders
    manager_handles_orders h =
        a_manager_handles_orders (ground (arith, eq_iff role role_warehouse_manager))
          (ground (arith, eq_iff type "order"))
          (ground (arith, eq_iff inp.action action_read, eq_iff inp.action action_create))

    manager_reads_inventory : Grants (allow_wm_read_inventory fl)
    unfolding allow_wm_read_inventory
    manager_reads_inventory h =
        a_manager_reads_inventory (ground (arith, eq_iff role role_warehouse_manager))
          (ground (arith, eq_iff type "inventory")) (ground (arith, eq_iff inp.action action_read))

    supplier_owns_shipment : Grants (allow_supplier_own_shipments fl)
    unfolding allow_supplier_own_shipments
    supplier_owns_shipment h =
        a_supplier_owns_shipment (ground (arith, eq_iff role role_supplier))
          (ground (arith, eq_iff type "shipment")) (ground (arith, eq_iff owner_supplier_id ""))
          (ground (arith, eq_iff owner_supplier_id inp.actor.supplier_id))

    supplier_reads_own_inventory : Grants (allow_supplier_read_own_inventory fl)
    unfolding allow_supplier_read_own_inventory
    supplier_reads_own_inventory h =
        a_supplier_reads_own_inventory (ground (arith, eq_iff role role_supplier))
          (ground (arith, eq_iff type "inventory")) (ground (arith, eq_iff inp.action action_read))
          (ground (arith, eq_iff owner_supplier_id ""))
          (ground (arith, eq_iff owner_supplier_id inp.actor.supplier_id))

    analyst_reads : Grants (allow_analyst_read fl)
    unfolding allow_analyst_read
    analyst_reads h =
        an_analyst_reads (ground (arith, eq_iff role role_analyst))
          (ground (arith, eq_iff inp.action action_read))

    admin : Grants (allow_admin fl)
    unfolding allow_admin
    admin h = an_admin (ground (arith, eq_iff role role_admin))

    permission_found : any (fires effect_allow inp) (default_rules fl) ≡ true → Permitted inp
    unfolding default_rules
    permission_found = any_sound (fires effect_allow inp) (default_rules fl) (
      not_true,
      (
        admin,
        (
          analyst_reads,
          (
            manager_reads_inventory,
            (
              manager_writes_own_region,
              (
                manager_handles_orders,
                (supplier_owns_shipment, (supplier_reads_own_inventory, tt)),
              ),
            ),
          ),
        ),
      ),
    )

  -- Under the default rules a request about the actor's own tenant, evaluated in time, is allowed
  -- exactly when its role has the permission, whatever the order value is.
  pub default_rules-Permitted_iff :
      (fl : FloatOps F) (timeout : ℤ) (race : Race) (inp : Input F)
      → SameTenant inp
      → InTime (new_engine (default_rules fl) timeout) race
      → ((evaluate (new_engine (default_rules fl) timeout) race inp).allow ≡ true) ↔ Permitted inp
  unfolding new_engine
  default_rules-Permitted_iff fl timeout race inp s t =
      let (to, from) = evaluate-allow_iff (new_engine (default_rules fl) timeout) race inp in
      (
        λ h. permission_found fl inp (to h).3,
        λ p. from (s, t, Permitted-no_deny fl inp p, Permitted-fires fl inp p),
      )
