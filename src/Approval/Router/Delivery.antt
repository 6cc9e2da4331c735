-- ===== src/Approval/Router/Delivery.antt =====
-- What a gate that does not allow a send prevents, and which channels have a result.
use kithkit.Base.{
  String, Bool, true, false, ◌&&◌, ◌||◌, List, [], ◌∷◌, ◌++◌, map, Option, none, some, filter, any,
  All, str_eq, eq_iff, eq_refl, ◌≡◌, ◌≢◌, ◌⊎◌, ◌↔◌, inl, inr, refl, sym, ◌∙◌, arith,
}
use kithkit.Base.Dict
use kithkit.Base.Dict.{Dict, get-set}
use kithkit.Approval.Router.{
  OutboundMessage, ChannelAdapter, State, allows, Completion, Action, persists, asks, sends,
  OutboundGateContext, persist, gate_context, guarded, deliver, work, settle, actions, targets,
  get_verbosity,
}

abbrev sends_on : String → Action → Bool
sends_on ch (sends c text) = str_eq c ch
sends_on ch (persists c r text) = false
sends_on ch (asks ctx) = false

-- Whether something was sent on the channel.
abbrev pub is_sent : String → List Action → Bool
is_sent ch l = any (sends_on ch) l

any-append {ℓ} : {A : Type ℓ} (p : A → Bool) (l r : List A) → any p (l ++ r) ≡ (any p l || any p r)
any-append p [] r = refl
any-append p (x ∷ l) r = ground (arith, any-append p l r)

-- The gate, where there is one, did not allow a send on the channel.
abbrev pub IsUnapproved : String → List Completion → Type 0
IsUnapproved ch cs = All (λ c. c.channel ≡ ch → c.gate ≢ allows) cs

guarded-unsent :
    (ch : String) (gated : Bool) (ctx : OutboundGateContext) (text : String) (c : Completion)
    → gated ≡ true
    → (c.channel ≡ ch → c.gate ≢ allows)
    → (is_sent ch (guarded gated ctx text c).0 ≡ false)
      × (c.channel ≡ ch → (guarded gated ctx text c).1 ≡ false)
unfolding guarded
guarded-unsent ch false ctx text c g u = ground (arith, g)
guarded-unsent ch true ctx text c g u =
    (ground (arith, u, eq_iff c.channel ch), λ e. ground (arith, e, u))

guarded-sent :
    (gated : Bool) (ctx : OutboundGateContext) (text : String) (c : Completion)
    → (guarded gated ctx text c).1 ≡ true
    → is_sent c.channel (guarded gated ctx text c).0 ≡ true
unfolding guarded
guarded-sent false ctx text c h = ground (arith, eq_refl c.channel)
guarded-sent true ctx text c h = ground (arith, h, eq_refl c.channel)

module _ (persistence : Bool) (s : State) (message : OutboundMessage) where
  persist-unsent : (ch channel : String) → is_sent ch (persist persistence message channel) ≡ false
  unfolding persist
  persist-unsent ch channel = ground arith

  deliver-unsent :
      (ch : String) (a : Option ChannelAdapter) (c : Completion)
      → s.outbound_gate ≡ true
      → (c.channel ≡ ch → c.gate ≢ allows)
      → (is_sent ch (deliver persistence s message a c).0 ≡ false)
        × (c.channel ≡ ch → (deliver persistence s message a c).1 ≡ false)
  unfolding deliver
  deliver-unsent ch none c g u = (refl, λ _. refl)
  deliver-unsent ch (some a) c g u =
      let text = a.format_message message.text (get_verbosity s c.channel) in
      let ctx = gate_context message c.channel text in
      let (unsent, failed) = guarded-unsent ch s.outbound_gate ctx text c g u in
      (
        any-append (sends_on ch) (persist persistence message c.channel)
              (guarded s.outbound_gate ctx text c).0
            ∙ ground (arith, unsent, persist-unsent ch c.channel),
        failed,
      )

  deliver-sent :
      (a : Option ChannelAdapter) (c : Completion)
      → (deliver persistence s message a c).1 ≡ true
      → is_sent c.channel (deliver persistence s message a c).0 ≡ true
  unfolding deliver
  deliver-sent none c h = ground (arith, h)
  deliver-sent (some a) c h =
      let text = a.format_message message.text (get_verbosity s c.channel) in
      let ctx = gate_context message c.channel text in
      any-append (sends_on c.channel) (persist persistence message c.channel)
        (guarded s.outbound_gate ctx text c).0
      ∙ ground (arith, guarded-sent s.outbound_gate ctx text c h)

  actions-unsent :
      (ch : String) (cs : List Completion)
      → s.outbound_gate ≡ true
      → IsUnapproved ch cs
      → is_sent ch (actions persistence s message cs) ≡ false
  unfolding actions work
  actions-unsent ch [] g u = refl
  actions-unsent ch (c ∷ cs) g u =
      any-append (sends_on ch) (work persistence s message c).0 (actions persistence s message cs)
      ∙ ground (
        arith,
        (deliver-unsent ch (Dict.get c.channel s.adapters) c g u.0).0,
        actions-unsent ch cs g u.1,
      )

  settle-failed :
      (ch : String) (cs : List Completion) (results : Dict Bool)
      → s.outbound_gate ≡ true
      → IsUnapproved ch cs
      → Dict.get ch results ≢ some true
      → Dict.get ch (settle persistence s message cs results) ≢ some true
  unfolding settle work
  settle-failed ch [] results g u n = n
  settle-failed ch (c ∷ cs) results g u n =
      settle-failed ch cs (Dict.set c.channel (work persistence s message c).1 results) g u.1 (
        ground (
          arith,
          n,
          eq_iff c.channel ch,
          get-set c.channel ch (work persistence s message c).1 results,
          (deliver-unsent ch (Dict.get c.channel s.adapters) c g u.0).1,
        ))

  settle-sent :
      (ch : String) (cs : List Completion) (results : Dict Bool)
      → Dict.get ch (settle persistence s message cs results) ≡ some true
      → (Dict.get ch results ≡ some true) ⊎ (is_sent ch (actions persistence s message cs) ≡ true)
  unfolding settle actions work
  settle-sent ch [] results h = inl h
  settle-sent ch (c ∷ cs) results h = ground (
    arith,
    eq_iff c.channel ch,
    settle-sent ch cs (Dict.set c.channel (work persistence s message c).1 results) h,
    get-set c.channel ch (work persistence s message c).1 results,
    deliver-sent (Dict.get c.channel s.adapters) c,
    any-append (sends_on ch) (work persistence s message c).0 (actions persistence s message cs),
  )

  get-settle :
      (ch : String) (cs : List Completion) (results : Dict Bool)
      → (Dict.get ch (settle persistence s message cs results) ≢ none)
        ↔ ((Dict.get ch results ≢ none) ⊎ (any (λ c. str_eq c.channel ch) cs ≡ true))
  unfolding settle
  get-settle ch [] results = (λ h. inl h, λ h. ground (arith, h))
  get-settle ch (c ∷ cs) results =
      let (there, back) =
        get-settle ch cs (Dict.set c.channel (work persistence s message c).1 results) in
      let m = get-set c.channel ch (work persistence s message c).1 results in
      (λ h. ground (arith, there h, m), λ h. back (ground (arith, h, m)))

  -- The router fails closed: where a gate is registered and, for one channel, it denies or throws
  -- each time it is asked, nothing is sent on that channel, and the channel's result is not true.
  pub fail_closed :
      (ch : String) (cs : List Completion)
      → s.outbound_gate ≡ true
      → IsUnapproved ch cs
      → (is_sent ch (actions persistence s message cs) ≡ false)
        × (Dict.get ch (settle persistence s message cs []) ≢ some true)
  unfolding Dict.get
  fail_closed ch cs g u =
      (actions-unsent ch cs g u, settle-failed ch cs [] g u (λ e. ground (arith, e)))

  -- A channel whose result is true has been sent to.
  pub true_means_sent :
      (ch : String) (cs : List Completion)
      → Dict.get ch (settle persistence s message cs []) ≡ some true
      → is_sent ch (actions persistence s message cs) ≡ true
  unfolding Dict.get
  true_means_sent ch cs h = ground (arith, settle-sent ch cs [] h)

abbrev records_on : String → Action → Bool
records_on ch (persists c r text) = str_eq c ch
records_on ch (sends c text) = false
records_on ch (asks ctx) = false

-- Whether a message of the channel was inserted into the conversation record.
abbrev pub is_recorded : String → List Action → Bool
is_recorded ch l = any (records_on ch) l

persist_telegram :
    (message : OutboundMessage) (channel : String)
    → channel ≡ "telegram"
    → message.sender_agent ≡ some "comms"
    → persist true message channel ≡ persists channel message.chat_id message.text ∷ []
unfolding persist
persist_telegram message channel t m = rw (t, persist) (rw (m, persist) refl)

-- With the feature on, a message of the comms agent to a registered telegram adapter is inserted
-- into the conversation record as outbound also where a gate is registered and does not allow it,
-- and nothing is sent.
pub recorded_before_gate :
    (s : State) (message : OutboundMessage) (c : Completion) (a : ChannelAdapter)
    → Dict.get c.channel s.adapters ≡ some a
    → c.channel ≡ "telegram"
    → message.sender_agent ≡ some "comms"
    → s.outbound_gate ≡ true
    → c.gate ≢ allows
    → (is_recorded c.channel (work true s message c).0 ≡ true)
      × (is_sent c.channel (work true s message c).0 ≡ false)
unfolding work deliver
recorded_before_gate s message c a e t m g u = (
  rw (e, work) (rw (persist_telegram message c.channel t m) (ground (arith, eq_refl c.channel))),
  (deliver-unsent true s message c.channel (Dict.get c.channel s.adapters) c g (λ _. u)).0,
)

abbrev pub listed : String → List String → Bool
listed ch l = any (λ c. str_eq c ch) l

listed-keys {ℓ} :
    {V : Type ℓ} (ch : String) (m : Dict V) → listed ch (map (λ e. e.0) m) ≡ Dict.has ch m
unfolding Dict.has Dict.get
listed-keys ch [] = refl
listed-keys ch ((k, v) ∷ m) = ground (arith, listed-keys ch m)

listed-filter :
    (ch : String) (p : String → Bool) (l : List String)
    → listed ch (filter p l) ≡ (listed ch l && p ch)
listed-filter ch p [] = refl
listed-filter ch p (c ∷ l) = ground (arith, eq_iff c ch, listed-filter ch p l)

listed-targets :
    (s : State) (ch : String) (channels : List String)
    → (listed ch (targets s channels) ≡ true)
      ↔ ((Dict.has ch s.adapters ≡ true) × ((channels ≡ []) ⊎ (listed ch channels ≡ true)))
unfolding targets
listed-targets s ch [] = (
  λ h. ground (arith, h, listed-keys ch s.adapters),
  λ h. ground (arith, h, listed-keys ch s.adapters),
)
listed-targets s ch (c ∷ cs) =
    let f = listed-filter ch (λ name. Dict.has name s.adapters) (c ∷ cs) in
    (λ h. (ground (arith, h, f), inr (ground (arith, h, f))), λ h. ground (arith, h, f))

-- Once the work on every target channel has ended, in any order, exactly these channels have a
-- result: those that are registered and were asked for, or all registered ones where none was.
pub results_of_targets :
    (persistence : Bool) (s : State) (message : OutboundMessage) (channels : List String)
    (cs : List Completion) (ch : String)
    → any (λ c. str_eq c.channel ch) cs ≡ listed ch (targets s channels)
    → (Dict.get ch (settle persistence s message cs []) ≢ none)
      ↔ ((Dict.has ch s.adapters ≡ true) × ((channels ≡ []) ⊎ (listed ch channels ≡ true)))
unfolding Dict.get
results_of_targets persistence s message channels cs ch e =
    let (there, back) = get-settle persistence s message ch cs [] in
    let (named, naming) = listed-targets s ch channels in
    (
      λ h. elim (there h) [ inl absent ↦ absurd (absent refl) | inr done ↦ named (sym e ∙ done) ],
      λ h. back (inr (e ∙ naming h)),
    )
