-- ===== src/Examples/Flows.antt =====
-- A buyer in the checkout, a seller with two documents, and somebody at the search palette.
use jolarca.Common.{map, true, String, ◌≡◌, ◌⊎◌, refl, false, none, some, List, [], ◌∷◌, arith}
use jolarca.Common.Lists.{All, pick}
use jolarca.Common.Text.{has_prefix}
use jolarca.Errors.{ok, throw, network}
use jolarca.Checkout.Flow
use jolarca.Checkout.Flow.{AddressData, OrderRequest, Checkout}
use jolarca.Checkout.Delivery.{lt, dpd_locker, ParcelLocker}
use jolarca.Checkout.FlowEvents
use jolarca.Checkout.Steps.{IsProper}
use jolarca.Checkout.Requests.{requested-AreProper}
use jolarca.Checkout.Fixed.{after_events_keep_order}
use jolarca.Search.Recent.{absent}
use jolarca.Search.Palette.{Suggestions}
use jolarca.Search.PaletteEvents
use jolarca.Search.PaletteEvents.{settle}
use jolarca.Search.Consistency.{IsConsistent}
use jolarca.Search.Race.{after_events-IsConsistent, settle_typed}
use jolarca.Seller.Kyc
use jolarca.Seller.Kyc.{File}
use jolarca.Seller.Previews.{IsHeld, after_events-HasNoLeak}
use jolarca.Seller.Uploads.{IsModest, after_events-IsModest}
use jolarca.Session.Csrf.{cookie_pairs, read_csrf_token, hook_token}
use jolarca.Session.Readers.{csrf_readers_agree}
use jolarca.Examples.Carts.{tea}

abbrev home : AddressData
home = record {
  full_name = "Ona Onaitė";
  street = "Pilies 1";
  city = "Vilnius";
  postal_code = "LT-01123";
  country = lt;
  phone = "+37060000000";
  save_to_address_book = false;
}

abbrev locker : ParcelLocker
locker = record { id = "l1"; name = "Stotis"; address = "Geležinkelio 16"; city = none }

abbrev purchase : List FlowEvents.Event
purchase =
    FlowEvents.submit_address home
    ∷ FlowEvents.choose_method dpd_locker
    ∷ FlowEvents.choose_locker locker
    ∷ FlowEvents.proceed
    ∷ FlowEvents.order_answered 0 (ok (record { order_id = "o1"; client_secret = "s" }))
    ∷ FlowEvents.enter_vat "LT123456789"
    ∷ []

requested-AreProper_example :
    All
      (IsProper some "k1")
      (FlowEvents.after_events some purchase (Flow.initial "k1" none (tea ∷ []) none)).requested
requested-AreProper_example = requested-AreProper some "k1" purchase none (tea ∷ []) none

-- With the order made, the buyer goes back, moves to Kaunas, and pays.
abbrev ordered : Checkout
ordered = FlowEvents.after_events some purchase (Flow.initial "k1" none (tea ∷ []) none)

abbrev new_home : AddressData
new_home = record home { street = "Laisvės 2"; city = "Kaunas" }

abbrev relocation : List FlowEvents.Event
relocation =
    FlowEvents.go_back Flow.address_step
    ∷ FlowEvents.submit_address new_home
    ∷ FlowEvents.proceed
    ∷ FlowEvents.enter_vat ""
    ∷ FlowEvents.continue_payment true
    ∷ FlowEvents.accept_terms true
    ∷ FlowEvents.place_order
    ∷ []

abbrev relocated : Checkout
relocated = FlowEvents.after_events some relocation ordered

after_events_keep_order_example :
    (relocated.order ≡ some (record { order_id = "o1"; client_secret = "s" }))
    × (relocated.requested ≡ ordered.requested)
    × All (λ id. id ≡ "o1") relocated.confirmed
unfolding FlowEvents.after_events Flow.initial
after_events_keep_order_example =
    after_events_keep_order some (record { order_id = "o1"; client_secret = "s" }) relocation
      ordered refl refl tt

-- The new address is shown, and the order that is paid was requested with the old one.
paid_to_the_old_home :
    (relocated.confirmed ≡ "o1" ∷ [])
    × (relocated.address ≡ some new_home)
    × (map OrderRequest.address relocated.requested ≡ home ∷ [])
unfolding FlowEvents.after_events Flow.initial
paid_to_the_old_home = (refl, refl, refl)

abbrev typing : List PaletteEvents.Event
typing =
    PaletteEvents.trigger
    ∷ PaletteEvents.type_text "te"
    ∷ PaletteEvents.timer_ends
    ∷ PaletteEvents.type_text "tea"
    ∷ PaletteEvents.timer_ends
    ∷ []

abbrev label : String → String
label s = s

abbrev no_suggestions : Suggestions
no_suggestions = record { categories = []; products = []; sellers = [] }

after_events-IsConsistent_example :
    IsConsistent (PaletteEvents.after_events label typing (PaletteEvents.initial absent))
after_events-IsConsistent_example = after_events-IsConsistent label typing absent

settle_typed_example :
    let p = PaletteEvents.after_events label typing (PaletteEvents.initial absent) in
    ("te" ≡ p.value)
    ⊎ (settle label 0 (ok no_suggestions) p ≡ record p { in_flight = (3, "tea") ∷ [] })
unfolding PaletteEvents.after_events pick
settle_typed_example =
    settle_typed label typing absent 0 2 "te" ((3, "tea") ∷ []) (ok no_suggestions) refl refl

abbrev passport : File
passport = record { name = "pass.png"; type_ = "image/png"; size = 1000 }

abbrev upload : List Kyc.Event
upload = Kyc.drop_files Kyc.Kind.identity (some passport) ∷ Kyc.removed Kyc.Kind.identity ∷ []

after_events-HasNoLeak_example : IsHeld (Kyc.after_events upload Kyc.initial) 0
unfolding Kyc.after_events has_prefix
after_events-HasNoLeak_example = after_events-HasNoLeak upload 0 (omega arith)

-- An upload that the server refuses, and a seller who takes the stepper to the payout.
abbrev refused_upload : List Kyc.Event
refused_upload =
    Kyc.step_to Kyc.identity_step
    ∷ Kyc.drop_files Kyc.Kind.identity (some passport)
    ∷ Kyc.answered 0 (throw (network "offline" "t1"))
    ∷ Kyc.step_to Kyc.payout_step
    ∷ []

after_events-IsModest_example :
    let s = Kyc.after_events refused_upload Kyc.initial in
    IsModest s × (Kyc.on_event Kyc.Event.proceed s ≡ s)
after_events-IsModest_example = after_events-IsModest refused_upload (tt, (tt, (tt, (tt, tt))))

payout_without_documents : (Kyc.after_events refused_upload Kyc.initial).step ≡ Kyc.payout_step
unfolding Kyc.after_events has_prefix
payout_without_documents = refl

csrf_readers_agree_example :
    read_csrf_token ok "lang=lt; jol_csrf=t0k3n; theme=dark"
    ≡ hook_token ok "lang=lt; jol_csrf=t0k3n; theme=dark"
unfolding cookie_pairs has_prefix
csrf_readers_agree_example =
    csrf_readers_agree ok "lang=lt; jol_csrf=t0k3n; theme=dark" ("lang=lt" ∷ []) ("theme=dark" ∷ [])
      "jol_csrf=t0k3n" refl (refl, tt) (refl, tt)

-- An empty cookie of the first name hides the second from the hook.
csrf_readers_differ :
    (read_csrf_token ok "csrftoken=; jol_csrf=t" ≡ ok (some "t"))
    × (hook_token ok "csrftoken=; jol_csrf=t" ≡ ok none)
unfolding cookie_pairs has_prefix read_csrf_token hook_token
csrf_readers_differ = (refl, refl)
