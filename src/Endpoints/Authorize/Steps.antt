-- ===== src/Endpoints/Authorize/Steps.antt =====
-- No way of signing in that the routing chooses sends a code for a request that demands more.
use smart_access_gateway.Prelude.{
  ◌≡◌, Bool, true, false, not, ◌&&◌, ◌||◌, Option, none, some, List, [], ◌∷◌, arith, length, ◌==◌,
  nat_eq, string_eq,
}
use smart_access_gateway.Util.Bytes.{Text}
use smart_access_gateway.Otp.{otp_allowed}
use smart_access_gateway.Endpoints.Authorize.{
  Transaction, Upstream, Hint, FlowConfig, Platform, Moment,
}
use smart_access_gateway.Endpoints.Authorize.Complete.{render_email}
use smart_access_gateway.Endpoints.Authorize.Codes.{address_of, send_otp}
use smart_access_gateway.Endpoints.Authorize.Route.{
  started, hinted_at, goes_straight, otp_possible, start_upstream, by_hint, without_upstream,
  by_upstream, render_chooser, render_password, route,
}
use smart_access_gateway.Endpoints.Authorize.Demands.{
  Ends, Ends-if, failure_response-Holds, MaySend, IsHonest, send_otp-Ends,
}

pub no_stage : ◌≡◌ {A = Bool} false true → ⊥
no_stage h = cc

and_first : (a b : Bool) → (a && b) ≡ true → a ≡ true
and_first a b h = ground arith

module _ {S : Type 0} (config : FlowConfig) (platform : Platform S) (moment : Moment) where
  otp_possible-MaySend :
      (tx : Transaction)
      → otp_possible config platform moment tx ≡ true
      → MaySend config platform tx
  otp_possible-MaySend tx h allowed = ground arith

  possible-Ends :
      (test : Bool) (tx : Transaction) (s : S)
      → (test ≡ true → otp_possible config platform moment tx ≡ true)
      → test ≡ true
      → Ends (IsHonest config platform) (send_otp config platform moment tx false s).0
  possible-Ends test tx s implied h =
      send_otp-Ends config platform moment tx false s (otp_possible-MaySend tx (implied h))

  pub start_upstream-Ends :
      (tx : Transaction) (u : Upstream) (hinted : Bool) (s : S)
      → Ends (IsHonest config platform) (start_upstream config platform moment tx u hinted s).0
  unfolding start_upstream
  start_upstream-Ends tx u hinted s = go (platform.begin u tx hinted)
    where
      go :
          (url : Option Text)
          → Ends (IsHonest config platform) (started config platform moment tx url s).0
      go (some url) = tt
      go none =
          Ends-if (IsHonest config platform) (otp_possible config platform moment tx) _ _ s
            (possible-Ends (otp_possible config platform moment tx) tx s (λ h. h))
            (λ cannot. failure_response-Holds (IsHonest config platform) _ _)

  by_hint-Ends :
      (tx : Transaction) (candidates : List Upstream) (hint : Hint) (s : S)
      → Ends (IsHonest config platform) (by_hint config platform moment tx candidates hint s).0
  unfolding by_hint render_chooser
  by_hint-Ends tx candidates hint s = go hint.hinted
    where
      go :
          (u : Option Upstream)
          → Ends
              (IsHonest config platform)
              (hinted_at config platform moment tx candidates hint u s).0
      go (some u) =
          Ends-if (IsHonest config platform) config.hint_select _ _ s
            (λ on. start_upstream-Ends tx u true s)
            (λ off.
              Ends-if (IsHonest config platform)
                (otp_possible config platform moment tx && hint.unmatched) _ _ s
                (possible-Ends _ tx s (λ h. and_first _ _ h))
                (λ cannot stage. absurd (no_stage stage)))
      go none =
          Ends-if (IsHonest config platform)
            (otp_possible config platform moment tx && (hint.unmatched || length candidates == 1)) _
            _ s (possible-Ends _ tx s (λ h. and_first _ _ h))
            (λ cannot stage. absurd (no_stage stage))

  without_upstream-Ends :
      (tx : Transaction) (s : S)
      → Ends (IsHonest config platform) (without_upstream config platform moment tx s).0
  unfolding without_upstream render_email
  without_upstream-Ends tx s =
      Ends-if (IsHonest config platform) (otp_possible config platform moment tx) _ _ s
        (possible-Ends (otp_possible config platform moment tx) tx s (λ h. h))
        (λ cannot.
          Ends-if (IsHonest config platform) (otp_allowed config.otp (address_of tx)) _ _ s
            (λ allowed. failure_response-Holds (IsHonest config platform) _ _)
            (λ decoy.
              Ends-if (IsHonest config platform) (config.explain_unknown || not config.otp.enabled)
                _ _ s (λ told stage. absurd (no_stage stage))
                (λ quiet.
                  send_otp-Ends config platform moment tx false s
                    (λ allowed. absurd (both allowed decoy)))))
    where
      both : {b : Bool} → b ≡ true → b ≡ false → ⊥
      both h k = cc

  by_upstream-Ends :
      (tx : Transaction) (candidates : List Upstream) (s : S)
      → Ends (IsHonest config platform) (by_upstream config platform moment tx candidates s).0
  unfolding by_upstream render_chooser
  by_upstream-Ends tx [] s = without_upstream-Ends tx s
  by_upstream-Ends tx (u ∷ []) s =
      Ends-if (IsHonest config platform) (not u.is_common || goes_straight config platform moment u)
        _ _ s (λ direct. start_upstream-Ends tx u false s) (λ asked. by_hint-Ends tx (u ∷ []) _ s)
  by_upstream-Ends tx (u ∷ v ∷ more) s =
      Ends-if (IsHonest config platform) (not u.is_common) _ _ s
        (λ own stage. absurd (no_stage stage)) (λ common. by_hint-Ends tx (u ∷ v ∷ more) _ s)

  pub route-Ends :
      (tx : Transaction) (s : S)
      → Ends (IsHonest config platform) (route config platform moment tx s).0
  unfolding route render_password
  route-Ends tx s =
      Ends-if (IsHonest config platform) (platform.local_allowed (address_of tx)) _ _ s
        (λ local stage. absurd (no_stage stage))
        (λ other. by_upstream-Ends tx (platform.upstreams_for (address_of tx)) s)
