-- ===== src/Mdns/Cycle/Passed.antt =====
-- forward of internal/mdns/browser.go among the other goroutines: what it sends of what the library
-- delivers, and in which order.
use mathlib.Core.List.{append-nil, append_assoc}
use cluster_api_runtime_exte.Base.{
  ◌≡◌, refl, sym, ap, ◌∙◌, subst, Option, none, some, Bool, true, false, String, List, [], ◌∷◌,
  ◌++◌, arith,
}
use cluster_api_runtime_exte.Mdns.{Entry, Endpoint, entry_to_endpoint}
use cluster_api_runtime_exte.Mdns.Cycle.{
  Forwarder, selecting, sending, returned, Browsing, launched, receive, Signal, heard, sent, Move,
  deliver, close, leave, take, drained, send, quit,
}

abbrev attach : Option Endpoint → List Endpoint → List Endpoint
attach none eps = eps
attach (some ep) eps = ep ∷ eps

-- The endpoints of the entries that have one, in their order.
unfoldable pub converted : List Entry → List Endpoint
converted [] = []
converted (e ∷ es) = attach (entry_to_endpoint e) (converted es)

abbrev pub entry_of : Signal → List Entry
entry_of (heard e) = e ∷ []
entry_of _ = []

abbrev pub endpoint_of : Signal → List Endpoint
endpoint_of (sent ep) = ep ∷ []
endpoint_of _ = []

-- How the goroutines of a service type come to stand where they do: the entries delivered and the
-- endpoints sent since they were launched, oldest first, and whether the browse context is done.
pub data Course (service : String) : Bool → List Entry → List Endpoint → Browsing → Type 0 where
  fresh : Course service false [] [] (launched service)
  expired :
      {es : List Entry} {eps : List Endpoint} {b : Browsing}
      → Course service false es eps b
      → Course service true es eps b
  stepped :
      {over : Bool} {es : List Entry} {eps : List Endpoint} {b b' : Browsing} (room : Bool)
      (signal : Signal)
      → Move over room signal b b'
      → Course service over es eps b
      → Course service over (es ++ entry_of signal) (eps ++ endpoint_of signal) b'

-- What has been sent, and what is still to be sent, is what was delivered. A forwarder that has
-- returned before the end of the context leaves nothing and hears no more.
abbrev pub Passed : Bool → Forwarder → List Entry → Bool → List Entry → List Endpoint → Type 0
Passed over selecting waiting closed es eps = eps ++ converted waiting ≡ converted es
Passed over (sending ep) waiting closed es eps = eps ++ (ep ∷ converted waiting) ≡ converted es
Passed false returned waiting closed es eps = (eps ≡ converted es) × (closed ≡ true)
Passed true returned waiting closed es eps = (cut : List Endpoint) × (eps ++ cut ≡ converted es)

converted-append : (es es' : List Entry) → converted (es ++ es') ≡ converted es ++ converted es'
unfolding converted
converted-append [] es' = refl
converted-append (e ∷ es) es' =
    ap (attach (entry_to_endpoint e)) (converted-append es es')
    ∙ attach-append (entry_to_endpoint e)
  where
    attach-append :
        (o : Option Endpoint)
        → attach o (converted es ++ converted es') ≡ attach o (converted es) ++ converted es'
    attach-append none = refl
    attach-append (some ep) = refl

module _ (es : List Entry) (eps : List Endpoint) where
  Passed-over :
      (f : Forwarder) (w : List Entry) (c : Bool)
      → Passed false f w c es eps
      → Passed true f w c es eps
  Passed-over selecting w c h = h
  Passed-over (sending ep) w c h = h
  Passed-over returned w c (h, k) = ([], append-nil eps ∙ h)

  one_more :
      (mid : List Endpoint) (e : Entry)
      → eps ++ mid ≡ converted es
      → eps ++ (mid ++ converted (e ∷ [])) ≡ converted (es ++ e ∷ [])
  one_more mid e h =
      sym (append_assoc eps mid (converted (e ∷ [])))
      ∙ ap (λ x. x ++ converted (e ∷ [])) h
      ∙ sym (converted-append es (e ∷ []))

  delivered :
      (over : Bool) (f : Forwarder) (w : List Entry) (c : Bool) (e : Entry)
      → c ≡ false
      → Passed over f w c es eps
      → Passed over f (w ++ e ∷ []) c (es ++ e ∷ []) eps
  delivered over selecting w c e o h = rw (converted-append w (e ∷ [])) (one_more (converted w) e h)
  delivered over (sending ep) w c e o h =
      rw (converted-append w (e ∷ [])) (one_more (ep ∷ converted w) e h)
  delivered false returned w c e o (h, k) = absurd (ground (arith, o, k))
  delivered true returned w c e o (cut, h) = (cut ++ converted (e ∷ []), one_more cut e h)

  closing :
      (over : Bool) (f : Forwarder) (w : List Entry) (c : Bool)
      → Passed over f w c es eps
      → Passed over f w true es eps
  closing over selecting w c h = h
  closing over (sending ep) w c h = h
  closing false returned w c (h, k) = (h, refl)
  closing true returned w c h = h

  received :
      (over : Bool) (o : Option Endpoint) (rest : List Entry) (c : Bool)
      → eps ++ attach o (converted rest) ≡ converted es
      → Passed over (receive o) rest c es eps
  unfolding receive
  received over none rest c h = h
  received over (some ep) rest c h = h

  finished :
      (over : Bool) (w : List Entry) (c : Bool)
      → c ≡ true
      → eps ≡ converted es
      → Passed over returned w c es eps
  finished false w c k h = (h, k)
  finished true w c k h = ([], append-nil eps ∙ h)

  cut_short :
      (over : Bool) (f : Forwarder) (w : List Entry) (c : Bool)
      → over ≡ true
      → Passed over f w c es eps
      → Passed over returned w c es eps
  cut_short false f w c o h = absurd (ground arith)
  cut_short true selecting w c o h = (_, h)
  cut_short true (sending ep) w c o h = (_, h)
  cut_short true returned w c o h = h

  at_forwarder :
      (over : Bool) (w : List Entry) (c : Bool) {f : Forwarder} (f' : Forwarder)
      → f ≡ f'
      → Passed over f w c es eps
      → Passed over f' w c es eps
  at_forwarder over w c f' e h = subst (λ x. Passed over x w c es eps) e h

  Move-Passed :
      {over room : Bool} {signal : Signal} {b b' : Browsing}
      → Move over room signal b b'
      → Passed over b.forwarder b.waiting b.closed es eps
      → Passed over b'.forwarder b'.waiting b'.closed
          (es ++ entry_of signal)
          (eps ++ endpoint_of signal)
  unfolding converted
  Move-Passed {over} (deliver b e a c l) h =
      rw (append-nil eps) (delivered over b.forwarder b.waiting b.closed e c h)
  Move-Passed {over} (close b a c) h =
      rw (append-nil es, append-nil eps) (closing over b.forwarder b.waiting b.closed h)
  Move-Passed {over} (leave b a) h = rw (append-nil es, append-nil eps) h
  Move-Passed {over} (take b e rest f w) h =
      rw (append-nil es, append-nil eps)
        (received over (entry_to_endpoint e) rest b.closed (
          ap (λ x. eps ++ converted x) (sym w)
          ∙ at_forwarder over b.waiting b.closed selecting f h))
  Move-Passed {over} (drained b f w c) h =
      rw (append-nil es, append-nil eps)
        (finished over b.waiting b.closed c (
          sym (append-nil eps)
          ∙ ap (λ x. eps ++ converted x) (sym w)
          ∙ at_forwarder over b.waiting b.closed selecting f h))
  Move-Passed {over} (send b ep f o) h = rw (append-nil es) (
      append_assoc eps (ep ∷ []) (converted b.waiting)
      ∙ at_forwarder over b.waiting b.closed (sending ep) f h)
  Move-Passed {over} (quit b o f) h =
      rw (append-nil es, append-nil eps) (cut_short over b.forwarder b.waiting b.closed o h)

-- First come, first served, and nothing is made up or doubled: what a forwarder has sent, then the
-- endpoint that it is sending and those of the entries on its channel, are the endpoints of the entries
-- that the library has delivered, in that order. A forwarder that returns before the browse context is
-- done has sent them all; one that returns at its end has sent the first of them.
pub Course-Passed :
    {service : String} {over : Bool} {es : List Entry} {eps : List Endpoint} {b : Browsing}
    → Course service over es eps b
    → Passed over b.forwarder b.waiting b.closed es eps
unfolding converted
Course-Passed fresh = refl
Course-Passed {es} {eps} {b} (expired c) =
    Passed-over es eps b.forwarder b.waiting b.closed (Course-Passed c)
Course-Passed (stepped {over} {es} {eps} room signal m c) = Move-Passed es eps m (Course-Passed c)
