-- ===== src/Receiver/State.antt =====
-- Set-up, thread control and the attached objects.
use lopack.Prelude.{
  ℕ, Bool, true, false, not, List, [], ◌∷◌, ◌++◌, Option, none, some, ◌==◌, if◌then◌else◌,
}
use lopack.Prelude.Text.{Text, codes, c_string}
use lopack.Prelude.Decimal.{decimal}
use lopack.Outcome.{Outcome, done, thrown, receive_exception}
use lopack.Liblo.{Ptr, null}
use lopack.Log.{Channel, warning, error_line}
use lopack.Objects.Dispatch.{World}
use lopack.Objects.Graph.{erase_first}

-- What making a server comes to: a thread or NULL, or an error that liblo reports to its callback
-- (number, message and place; the last two may be NULL).
pub data Opened : Type 0 where
  opened : Ptr → Opened
  reported : ℕ → Option Text → Option Text → Opened

-- A message that the server hands to its callback.
pub record Arrival : Type 0 where
  pub path : Text
  pub message : Ptr

pub record Server (W : Type 0) : Type 0 where
  pub server_thread_new : Text → W → W × Opened
  pub server_thread_new_multicast : Text → Text → W → W × Opened
  pub server_thread_add_method : Ptr → W → W
  pub server_thread_start : Ptr → W → W
  pub server_thread_stop : Ptr → W → W
  pub server_thread_get_server : Ptr → W → Ptr
  -- the number of bytes, and the messages that came with them
  pub server_recv_noblock : Ptr → ℕ → W → W × ℕ × List Arrival
  pub url_get_hostname : Text → Text
  pub server_get_url : Ptr → W → Text
  pub server_get_port : Ptr → W → ℕ

-- The members, with liblo's state, the objects in `scene` and what is logged there.
pub record OscReceiver (W S : Type 0) : Type 0 where
  pub osc_root_address : Text
  pub server_thread : Ptr
  pub is_multicast : Bool
  pub is_running : Bool
  pub ignore_messages : Bool
  pub objects : List Ptr
  pub world : W
  pub scene : World S

abbrev pub is_set : Ptr → Bool
is_set p = not (p == null)

optional : Option Text → Text
optional none = []
optional (some t) = codes ": " ++ t

-- errorCB, which throws
unfoldable pub error_text : ℕ → Option Text → Option Text → Text
unfolding optional
error_text num msg place =
    codes "OscReceiver: liblo server thread error " ++ decimal num ++ optional msg ++ optional place

module _ {W S : Type 0} where
  abbrev pub logged : (Channel × Text) → OscReceiver W S → OscReceiver W S
  logged line r = record r { scene = record r.scene { console = r.scene.console ++ line ∷ [] } }

  -- OscReceiver(rootAddress)
  unfoldable pub make_receiver : Text → W → World S → OscReceiver W S
  make_receiver address w scene = record {
    osc_root_address = address;
    server_thread = null;
    is_multicast = false;
    is_running = false;
    ignore_messages = false;
    objects = [];
    world = w;
    scene = scene;
  }

  unfoldable pub is_listening : OscReceiver W S → Bool
  is_listening r = true

  unfoldable pub ignore_messages : Bool → OscReceiver W S → OscReceiver W S
  ignore_messages yesno r = record r { ignore_messages = yesno }

  unfoldable pub set_osc_root_address : Text → OscReceiver W S → OscReceiver W S
  set_osc_root_address address r = record r { osc_root_address = address }

  unfoldable pub add_osc_object : Ptr → OscReceiver W S → OscReceiver W S
  add_osc_object object r =
      if object == null
      then logged (warning (codes "OscReceiver: cannot add NULL object")) r
      else record r { objects = r.objects ++ object ∷ [] }

  unfoldable pub remove_osc_object : Ptr → OscReceiver W S → OscReceiver W S
  unfolding erase_first
  remove_osc_object object r =
      if object == null
      then logged (warning (codes "OscReceiver: cannot remove NULL object")) r
      else record r { objects = erase_first object r.objects }

  unfoldable pub remove_all_osc_objects : OscReceiver W S → OscReceiver W S
  remove_all_osc_objects r = record r { objects = [] }

module _ {W S : Type 0} (lo : Server W) where
  -- What setup and setupMulticast do with the thread that liblo made.
  finish_setup : Bool → OscReceiver W S → W × Opened → Outcome (OscReceiver W S × Bool)
  finish_setup multicast r (w, reported num msg place) =
      thrown (receive_exception (error_text num msg place)) (record r { world = w }, false)
  finish_setup multicast r (w, opened thread) =
      if is_set thread
      then done (
        record r {
          server_thread = thread;
          is_multicast = multicast;
          world = lo.server_thread_add_method thread w;
        },
        true,
      )
      else done (
        logged (error_line (codes "OscReceiver: could not create server"))
            (record r { server_thread = thread; world = w }),
        false,
      )

  unfoldable pub setup : ℕ → OscReceiver W S → Outcome (OscReceiver W S × Bool)
  unfolding finish_setup
  setup port r =
      if is_set r.server_thread
      then done
          (logged (warning (codes "OscReceiver: cannot set port while thread is running")) r, false)
      else finish_setup false r (lo.server_thread_new (c_string (decimal port)) r.world)

  unfoldable pub setup_multicast : Text → ℕ → OscReceiver W S → Outcome (OscReceiver W S × Bool)
  unfolding finish_setup
  setup_multicast group port r =
      if is_set r.server_thread
      then done (
        logged
            (warning
              (codes "OscReceiver: cannot set multicast group & port while thread is running"))
            r,
        false,
      )
      else finish_setup true r
          (lo.server_thread_new_multicast (c_string group) (c_string (decimal port)) r.world)

  unfoldable pub start : OscReceiver W S → OscReceiver W S
  start r =
      if is_set r.server_thread
      then record r { world = lo.server_thread_start r.server_thread r.world; is_running = true }
      else logged (error_line (codes "OscReceiver: cannot start thread, address not set")) r

  unfoldable pub stop : OscReceiver W S → OscReceiver W S
  stop r =
      if is_set r.server_thread
      then record r {
        world = lo.server_thread_stop r.server_thread r.world;
        is_running = false;
        ignore_messages = false;
      }
      else r

  unfoldable pub clear : OscReceiver W S → OscReceiver W S
  unfolding stop
  clear r = record (stop r) { server_thread = null; is_multicast = false }

  abbrev pub server_of : OscReceiver W S → Ptr
  server_of r = lo.server_thread_get_server r.server_thread r.world

  unfoldable pub get_hostname : OscReceiver W S → Text
  get_hostname r =
      if is_set r.server_thread
      then lo.url_get_hostname (lo.server_get_url (server_of r) r.world)
      else []

  unfoldable pub get_port : OscReceiver W S → ℕ
  get_port r = if is_set r.server_thread then lo.server_get_port (server_of r) r.world else 0

  unfoldable pub get_url : OscReceiver W S → Text
  get_url r = if is_set r.server_thread then lo.server_get_url (server_of r) r.world else []

  -- What goes to std::cout.
  unfoldable print : OscReceiver W S → Text
  unfolding get_url
  print r = if is_set r.server_thread then get_url r ++ 10 ∷ [] else []

module _ {W S : Type 0} (lo : Server W) where
  -- The constructors that set the receiver up, and the destructor. Where `setup` throws there is
  -- no receiver; what it made is then what `thrown` holds.
  unfoldable make_receiver_on : ℕ → Text → W → World S → Outcome (OscReceiver W S × Bool)
  unfolding setup make_receiver
  make_receiver_on port address w scene = setup lo port (make_receiver address w scene)

  unfoldable make_receiver_in : Text → ℕ → Text → W → World S → Outcome (OscReceiver W S × Bool)
  unfolding setup_multicast make_receiver
  make_receiver_in group port address w scene =
      setup_multicast lo group port (make_receiver address w scene)

  unfoldable destroy : OscReceiver W S → OscReceiver W S
  unfolding clear
  destroy r = clear lo r
