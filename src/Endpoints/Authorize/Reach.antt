-- ===== src/Endpoints/Authorize/Reach.antt =====
-- The flow as a step relation on the transactions that pages carry: a sign-in by code never answers
-- a request that demands more.
use mathlib.Core.Path.{subst}
use smart_access_gateway.Prelude.{
  ◌≡◌, ap, ◌∙◌, inl, inr, true, false, not, Option, none, some, Result, ok, Bool-cases,
}
use smart_access_gateway.Util.Http.{Params}
use smart_access_gateway.Errors.{Failure}
use smart_access_gateway.Otp.{otp_allowed}
use smart_access_gateway.Acr.{requires_federation, otp_acr, satisfies}
use smart_access_gateway.Acr.Demands.{satisfies-otp}
use smart_access_gateway.Clients.{Client}
use smart_access_gateway.Oauth.Transaction.{OtpState, without_otp}
use smart_access_gateway.Oauth.Request.{RequestServices, RequestConfig, Parsed}
use smart_access_gateway.Endpoints.Handler.{Handler, from_result}
use smart_access_gateway.Endpoints.Authorize.{
  Transaction, Answer, start_again, completed, Completion, FlowConfig, Platform, Moment,
}
use smart_access_gateway.Endpoints.Authorize.Complete.{render_email}
use smart_access_gateway.Endpoints.Authorize.Codes.{
  address_of, is_otp, request_otp, resend_otp, has_code, submit_otp,
}
use smart_access_gateway.Endpoints.Authorize.Handlers.{
  Loaded, submit_email, choose_loaded, continue_loaded, start,
}
use smart_access_gateway.Endpoints.Authorize.Demands.{carried, Holds, Ends, IsHonest}
use smart_access_gateway.Endpoints.Authorize.Local.{LocalContext, submit_password, submit_factor}
use smart_access_gateway.Endpoints.Authorize.Callback.{Leg, CallbackContext, return_from_upstream}
use smart_access_gateway.Endpoints.Authorize.Local.Pages.{submit_password-Ends, submit_factor-Ends}
use smart_access_gateway.Endpoints.Authorize.Returns.{return_from_upstream-Ends}
use smart_access_gateway.Endpoints.Authorize.Moves.{
  submit_email-Ends, request_otp-Ends, resend_otp-Ends, submit_otp-Ends,
}
use smart_access_gateway.Endpoints.Authorize.Sessions.{
  continue_loaded-Ends, choose_loaded-Ends, restart-Ends, start-Ends,
}

-- What the browser posts with a transaction.
pub data Action : Type 0 where
  give_email : Params → Action
  ask_code : Action
  ask_again : Action
  give_code : Params → Action
  press_continue : Action
  choose_upstream : Params → Action
  restart : Action
  give_password : Params → Action
  give_factor : Params → Action

module _ {S : Type 0} (services : RequestServices) (requests : RequestConfig) (config : FlowConfig)
    (platform : Platform S) (local : LocalContext S) (upstreams : CallbackContext S) where
  -- The handler of an action.
  unfoldable pub act : Moment → Action → Loaded → Handler S Answer
  act moment (give_email params) loaded =
      submit_email services requests config platform moment params loaded
  act moment ask_code loaded = request_otp config platform moment loaded.tx
  act moment ask_again loaded = resend_otp config platform moment loaded.tx
  act moment (give_code params) loaded =
      submit_otp config platform moment loaded.tx loaded.client params
  act moment press_continue loaded = continue_loaded services requests config platform moment loaded
  act moment (choose_upstream params) loaded =
      choose_loaded services requests config platform moment params loaded
  act moment restart loaded =
      from_result (ok (render_email moment (without_otp loaded.tx) none false))
  act moment (give_password params) loaded =
      submit_password config platform moment local loaded.tx loaded.client params
  act moment (give_factor params) loaded =
      submit_factor config platform moment local loaded.tx loaded.client params

  -- The transactions that pages carry, from an authorisation request or from an upstream's return
  -- on, at any times and whatever else is done to the store. A return has any transaction in its
  -- state: that an upstream was started with it is not asked.
  pub data Reached : Transaction → Type 0 where
    begun :
        (moment : Moment) (parsed : Parsed) (s : S) (answer : Answer) {next : Transaction}
        → (start services requests config platform moment parsed s).0 ≡ ok answer
        → carried answer ≡ some next
        → Reached next
    returned :
        (moment : Moment) (tx : Transaction) (leg : Leg) (client : Client) (params : Params) (s : S)
        (answer : Answer) {next : Transaction}
        → (return_from_upstream config platform moment upstreams tx leg client params s).0
          ≡ ok answer
        → carried answer ≡ some next
        → Reached next
    moved :
        (moment : Moment) (action : Action) (loaded : Loaded) (s : S) (answer : Answer)
        {next : Transaction}
        → Reached loaded.tx
        → (act moment action loaded s).0 ≡ ok answer
        → carried answer ≡ some next
        → Reached next

  act-Ends :
      (moment : Moment) (action : Action) (loaded : Loaded) (s : S)
      → IsHonest config platform loaded.tx
      → Ends (IsHonest config platform) (act moment action loaded s).0
  unfolding act
  act-Ends moment (give_email params) loaded s honest =
      submit_email-Ends config platform moment services requests params loaded s
  act-Ends moment ask_code loaded s honest = request_otp-Ends config platform moment loaded.tx s
  act-Ends moment ask_again loaded s honest =
      resend_otp-Ends config platform moment loaded.tx s honest
  act-Ends moment (give_code params) loaded s honest =
      submit_otp-Ends config platform moment loaded.tx loaded.client params s honest
  act-Ends moment press_continue loaded s honest =
      continue_loaded-Ends config platform moment services requests loaded s
  act-Ends moment (choose_upstream params) loaded s honest =
      choose_loaded-Ends config platform moment services requests params loaded s
  act-Ends moment restart loaded s honest = restart-Ends config platform moment loaded.tx
  act-Ends moment (give_password params) loaded s honest =
      submit_password-Ends config platform moment local loaded.tx loaded.client params s
  act-Ends moment (give_factor params) loaded s honest =
      submit_factor-Ends config platform moment local loaded.tx loaded.client params s

  next-IsHonest :
      (r : Result Failure Answer) (answer : Answer) (next : Transaction)
      → Ends (IsHonest config platform) r
      → r ≡ ok answer
      → carried answer ≡ some next
      → IsHonest config platform next
  next-IsHonest r answer next ends e shown =
      subst (Holds (IsHonest config platform)) shown
        (subst (Ends (IsHonest config platform)) e ends)

  -- Every reached transaction that waits for a code is one for which a code may be sent.
  Reached-IsHonest : {tx : Transaction} → Reached tx → IsHonest config platform tx
  Reached-IsHonest (begun moment parsed s answer {next} e shown) =
      next-IsHonest _ answer next (start-Ends config platform moment services requests parsed s) e
        shown
  Reached-IsHonest (returned moment tx leg client params s answer {next} e shown) =
      next-IsHonest _ answer next
        (return_from_upstream-Ends config platform moment upstreams tx leg client params s) e shown
  Reached-IsHonest (moved moment action loaded s answer {next} before e shown) =
      next-IsHonest _ answer next (act-Ends moment action loaded s (Reached-IsHonest before)) e
        shown

  submit_otp-waiting :
      (moment : Moment) (tx : Transaction) (client : Client) (params : Params) (s : S)
      (c : Completion)
      → (submit_otp config platform moment tx client params s).0 ≡ ok (completed c)
      → is_otp tx.stage ≡ true
  unfolding submit_otp
  submit_otp-waiting moment tx client params s c h =
      elim (Bool-cases (has_code config platform moment tx)) [
        | inl waiting ↦ staged tx.otp waiting
        | inr lost ↦ absurd (not_completed (rw lost at h))
      ]
    where
      staged :
          (o : Option OtpState)
          → (elim o [ none ↦ false | some o ↦ is_otp tx.stage ]) ≡ true
          → is_otp tx.stage ≡ true
      staged none e = cc
      staged (some o) e = e

      not_completed : ◌≡◌ {A = Result Failure Answer} (ok start_again) (ok (completed c)) → ⊥
      not_completed e = cc

  -- A sign-in by emailed code never answers a request that demands more than a code can give. For
  -- every transaction that a page has carried, after any sequence of the flow's handlers (an
  -- authorisation request, the address, a code, the session, the choice of an upstream, its return,
  -- the local password and the second factor), and whose address may use codes: if the submission of a code mints an authorisation code, then an email code meets
  -- the request's acr_values.
  pub submit_otp-satisfies :
      (moment : Moment) (tx : Transaction) (client : Client) (params : Params) (s : S)
      (c : Completion)
      → Reached tx
      → otp_allowed config.otp (address_of tx) ≡ true
      → (submit_otp config platform moment tx client params s).0 ≡ ok (completed c)
      → satisfies otp_acr tx.request.acr_values ≡ true
  submit_otp-satisfies moment tx client params s c reached allowed won =
      let free : requires_federation tx.request.acr_values ≡ false =
        Reached-IsHonest reached (submit_otp-waiting moment tx client params s c won) allowed in
      satisfies-otp tx.request.acr_values ∙ ap not free
