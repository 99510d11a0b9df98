-- ===== src/Config/Sticky.antt =====
-- The options of the CAN controllers, which `ConfigurationManager` keeps from action to action.
use cyclarity_in_vehicle_sdk.Prelude.{
  ℕ, Bool, true, false, not, ◌||◌, ◌≡◌, refl, Option, none, some, List, [], ◌∷◌, if◌then◌else◌,
}
use cyclarity_in_vehicle_sdk.Python.{Exec, Result, ok, raised, stuck, ◌>>=◌, continue, pure}
use cyclarity_in_vehicle_sdk.Config.{
  CanInterfaceConfigurationInfo, ConfigurationAction, ip_add_action, ip_remove_action,
  can_configuration_action, eth_interface_configuration_action, wifi_connect_action,
  create_vlan_action,
}
use cyclarity_in_vehicle_sdk.Config.Netlink.{Netlink, CtrlMode}
use cyclarity_in_vehicle_sdk.Config.Manager.{
  update_options, ConfigurationManager, Manager, on_net, is_interface_exists, take_down,
  set_can_options, apply_can, bring_up, configure_can, configure_action, configure_actions,
}

-- Every option that is on in the first is on in the second.
unfoldable pub IsKept : CtrlMode → CtrlMode → Type 0
IsKept old new = (old.cc_len8_dlc ≡ true → new.cc_len8_dlc ≡ true) × (old.fd ≡ true → new.fd ≡ true)

or_true : (a b : Bool) → b ≡ true → a || b ≡ true
or_true true b h = refl
or_true false b h = h

update_options-IsKept :
    (can_config : CanInterfaceConfigurationInfo) (options : CtrlMode)
    → IsKept options (update_options can_config options)
unfolding IsKept update_options
update_options-IsKept can_config options =
    (or_true can_config.cc_len8_dlc options.cc_len8_dlc, later_fd can_config.fd)
  where
    later_fd :
        (fd : Option ℕ) → options.fd ≡ true → elim fd [ none ↦ options.fd | some d ↦ true ] ≡ true
    later_fd none h = h
    later_fd (some d) h = refl

module _ (net : Netlink) where
  unfoldable Keeps : {A : Type 0} → Manager net A → Type 0
  Keeps m =
      (s : ConfigurationManager net) → IsKept s.can_ctrlmode_options (m s).1.can_ctrlmode_options

  pure-Keeps : {A : Type 0} (a : A) → Keeps (pure a)
  unfolding Keeps pure IsKept
  pure-Keeps a s = (λ h. h, λ h. h)

  on_net-Keeps : {A : Type 0} (m : Exec net.Outside A) → Keeps (on_net net m)
  unfolding Keeps on_net IsKept
  on_net-Keeps m s = (λ h. h, λ h. h)

  continue-Keeps :
      {A B : Type 0} (old : CtrlMode) (r : Result A) (next : A → Manager net B)
      (s : ConfigurationManager net)
      → ((a : A) → Keeps (next a))
      → IsKept old s.can_ctrlmode_options
      → IsKept old (continue r next s).1.can_ctrlmode_options
  unfolding Keeps IsKept
  continue-Keeps old (ok a) next s h k = (λ e. (h a s).0 (k.0 e), λ e. (h a s).1 (k.1 e))
  continue-Keeps old (raised e) next s h k = k
  continue-Keeps old stuck next s h k = k

  bind-Keeps :
      {A B : Type 0} (m : Manager net A) (next : A → Manager net B)
      → Keeps m
      → ((a : A) → Keeps (next a))
      → Keeps (m >>= next)
  unfolding Keeps ◌>>=◌
  bind-Keeps m next first later s =
      continue-Keeps s.can_ctrlmode_options (m s).0 next (m s).1 later (first s)

  else-Keeps :
      {A : Type 0} (b : Bool) (m m' : Manager net A)
      → Keeps m
      → Keeps m'
      → Keeps (if b then m else m')
  else-Keeps true m m' h h' = h
  else-Keeps false m m' h h' = h'

  -- Where the state is read before it goes on.
  reads-Keeps :
      {A : Type 0} (m : ConfigurationManager net → Manager net A)
      → ((s : ConfigurationManager net) → Keeps (m s))
      → Keeps (λ s. m s s)
  unfolding Keeps
  reads-Keeps m h s = h s s

  set_can_options-Keeps :
      (can_config : CanInterfaceConfigurationInfo) → Keeps (set_can_options net can_config)
  unfolding Keeps set_can_options
  set_can_options-Keeps can_config s = update_options-IsKept can_config s.can_ctrlmode_options

  configure_can-Keeps :
      (can_config : CanInterfaceConfigurationInfo) → Keeps (configure_can net can_config)
  unfolding configure_can
  configure_can-Keeps can_config =
      bind-Keeps (on_net net (is_interface_exists net can_config.channel)) _ (on_net-Keeps _)
        (λ exists. else-Keeps (not exists) _ _ (pure-Keeps tt) (
          bind-Keeps (on_net net (take_down net can_config.channel)) _ (on_net-Keeps _) (λ idx.
            bind-Keeps (set_can_options net can_config) _ (set_can_options-Keeps can_config)
              (λ done. reads-Keeps _ (λ s.
                bind-Keeps (on_net net (apply_can net idx can_config s.can_ctrlmode_options)) _
                  (on_net-Keeps _) (λ set. on_net-Keeps (bring_up net idx can_config.state)))))))

  configure_action-Keeps : (action : ConfigurationAction) → Keeps (configure_action net action)
  unfolding configure_action
  configure_action-Keeps (ip_add_action action) = on_net-Keeps _
  configure_action-Keeps (ip_remove_action action) = on_net-Keeps _
  configure_action-Keeps (can_configuration_action action) = configure_can-Keeps action
  configure_action-Keeps (eth_interface_configuration_action action) = on_net-Keeps _
  configure_action-Keeps (wifi_connect_action action) = on_net-Keeps _
  configure_action-Keeps (create_vlan_action action) = on_net-Keeps _

  configure_all-Keeps : (actions : List ConfigurationAction) → Keeps (configure_actions net actions)
  unfolding configure_actions
  configure_all-Keeps [] = pure-Keeps tt
  configure_all-Keeps (action ∷ actions) =
      bind-Keeps _ _ (configure_action-Keeps action) (λ done. configure_all-Keeps actions)

-- Whatever actions are carried out, and also where one of them raises in between: an option of the
-- CAN controllers that was on before them is on after them, so no action turns an option off.
pub configure_actions-IsKept :
    (net : Netlink) (actions : List ConfigurationAction) (s : ConfigurationManager net)
    → IsKept s.can_ctrlmode_options (configure_actions net actions s).1.can_ctrlmode_options
unfolding Keeps
configure_actions-IsKept net actions s = configure_all-Keeps net actions s
