-- ===== src/Console/Client/Safety/Leaves.antt =====
-- What choices C, D, 5 and U of src/Linux.cpp leave of a client's pointers.
use dlms_access_point.Prelude.{
  arith, Text, ℤ, ◌≡◌, refl, ◌∙◌, Bool, true, false, Option, none, some, ℕ, if◌then◌else◌,
}
use dlms_access_point.Console.Machine.{M, Outcome, returned, stopped, ◌>>=◌, pure}
use dlms_access_point.Console.Pointers.{Library, Handle}
use dlms_access_point.Console.Client.{
  Client, guarded, say, number, net_op, net_do, the_net, the_pointers, the_engine, touch, through,
  console_op,
}
use dlms_access_point.Console.Client.Connect.{
  identify_over, on_hdlc_identify, is_physical, on_hdlc_datalink_connect,
}
use dlms_access_point.Console.Client.Requests.{on_cosem_release}
use dlms_access_point.Console.Client.Disconnect.{disconnect_over, on_hdlc_disconnect}

module _ (lib : Library) where
  open lib use {Engine, Hdlc}

  -- Where a computation returns, the pointers are as before.
  abbrev pub Same : {A : Type 0} → Client lib → Outcome (Client lib) A → Type 0
  Same s (returned a s') = s'.pointers ≡ s.pointers
  Same s (stopped stop s') = Unit

  unfoldable pub Leaves : {A : Type 0} → M (Client lib) A → Type 0
  Leaves m = (s : Client lib) → Same s (m s)

  Same-trans :
      {A : Type 0} (s s' : Client lib) (o : Outcome (Client lib) A)
      → s'.pointers ≡ s.pointers
      → Same s' o
      → Same s o
  Same-trans s s' (returned a t) e same = same ∙ e
  Same-trans s s' (stopped stop t) e same = tt

  Same-chain :
      {A B : Type 0} (s : Client lib) (o : Outcome (Client lib) A) (k : A → M (Client lib) B)
      → Same s o
      → ((a : A) (s' : Client lib) → Same s' (k a s'))
      → Same s (((λ _. o) >>= k) s)
  unfolding ◌>>=◌
  Same-chain s (returned a s') k same rest = Same-trans s s' (k a s') same (rest a s')
  Same-chain s (stopped stop s') k same rest = tt

  Leaves-bind :
      {A B : Type 0} (m : M (Client lib) A) (k : A → M (Client lib) B)
      → Leaves m
      → ((a : A) → Leaves (k a))
      → Leaves (m >>= k)
  unfolding Leaves ◌>>=◌
  Leaves-bind m k first rest s = Same-chain s (m s) k (first s) rest

  Leaves-number : (prompt : Text) (default : ℤ) → Leaves (number lib prompt default)
  unfolding Leaves number console_op
  Leaves-number prompt default s = ground arith

  Leaves-through : {A : Type 0} (h : Option (Handle A)) → Leaves (through lib h)
  unfolding Leaves through touch
  Leaves-through none s = tt
  Leaves-through (some h) s = ground arith

  Leaves-touch : (a : ℕ) → Leaves (touch lib a)
  unfolding Leaves touch
  Leaves-touch a s = ground arith

  Leaves-say : (line : Text) → Leaves (say lib line)
  unfolding Leaves say
  Leaves-say line s = refl

  Leaves-net_do : (f : lib.Net → lib.Net) → Leaves (net_do lib f)
  unfolding Leaves net_do
  Leaves-net_do f s = refl

  Leaves-net_op : {A : Type 0} (f : lib.Net → lib.Net × A) → Leaves (net_op lib f)
  unfolding Leaves net_op
  Leaves-net_op f s = refl

  Leaves-the_net : Leaves (the_net lib)
  unfolding Leaves the_net
  Leaves-the_net s = refl

  Leaves-the_pointers : Leaves (the_pointers lib)
  unfolding Leaves the_pointers
  Leaves-the_pointers s = refl

  Leaves-pure : {A : Type 0} (a : A) → Leaves (pure a)
  unfolding Leaves
  Leaves-pure a s = refl

  Leaves-guarded :
      (b : Bool) (message : Text) (body : M (Client lib) (Unit {0}))
      → Leaves body
      → Leaves (guarded lib b message body)
  unfolding guarded
  Leaves-guarded true message body leaves = leaves
  Leaves-guarded false message body leaves = Leaves-say message

  Leaves-if :
      {A : Type 0} (b : Bool) (m n : M (Client lib) A)
      → Leaves m
      → Leaves n
      → Leaves (if b then m else n)
  Leaves-if true m n first second = first
  Leaves-if false m n first second = second

  ruleset leaves = (
    Leaves-bind, Leaves-number, Leaves-through, Leaves-touch, Leaves-say, Leaves-net_do,
    Leaves-net_op, Leaves-the_net, Leaves-the_pointers, Leaves-pure, Leaves-guarded, Leaves-if,
  )

  pub Leaves-on_cosem_release : Leaves (on_cosem_release lib)
  unfolding on_cosem_release the_engine
  Leaves-on_cosem_release = search leaves

  Leaves-identify_over : (h : Option (Handle Hdlc)) → Leaves (identify_over lib h)
  unfolding identify_over
  Leaves-identify_over none = search leaves
  Leaves-identify_over (some h) = search leaves

  pub Leaves-on_hdlc_identify : Leaves (on_hdlc_identify lib)
  unfolding on_hdlc_identify
  Leaves-on_hdlc_identify = search (leaves, Leaves-identify_over)

  Leaves-is_physical :
      (socket : Option ℕ) (h : Option (Handle Hdlc)) → Leaves (is_physical lib socket h)
  unfolding is_physical
  Leaves-is_physical none h = search leaves
  Leaves-is_physical (some a) none = search leaves
  Leaves-is_physical (some a) (some h) = search leaves

  pub Leaves-on_hdlc_datalink_connect : Leaves (on_hdlc_datalink_connect lib)
  unfolding on_hdlc_datalink_connect
  Leaves-on_hdlc_datalink_connect = search (leaves, Leaves-is_physical) depth 9

  Leaves-disconnect_over : (h : Option (Handle Hdlc)) → Leaves (disconnect_over lib h)
  unfolding disconnect_over
  Leaves-disconnect_over none = search leaves
  Leaves-disconnect_over (some h) = search leaves

  pub Leaves-on_hdlc_disconnect : Leaves (on_hdlc_disconnect lib)
  unfolding on_hdlc_disconnect
  Leaves-on_hdlc_disconnect = search (leaves, Leaves-disconnect_over)
