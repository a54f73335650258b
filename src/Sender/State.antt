-- ===== src/Sender/State.antt =====
-- The members of an OscSender, its set-up, `send` and `clear`.
use lopack.Prelude.{ℕ, Bool, true, false, not, ◌||◌, List, [], ◌∷◌, ◌==◌, if◌then◌else◌}
use lopack.Prelude.Text.{Text, c_string}
use lopack.Prelude.Decimal.{decimal}
use lopack.Outcome.{Outcome, done, thrown, Result, returned, undetermined, send_exception}
use lopack.Liblo.{Liblo, Ptr, null}

pub record OscSender (W : Type 0) : Type 0 where
  pub address : Ptr
  pub message : Ptr
  pub bundles : List Ptr
  pub address_pattern : Text
  pub message_in_progress : Bool
  pub bundle_in_progress : Bool
  pub world : W

-- `if(p)` on a pointer
abbrev pub is_set : Ptr → Bool
is_set p = not (p == null)

-- `size() > 0`
abbrev pub has_some : List Ptr → Bool
has_some [] = false
has_some (b ∷ bs) = true

-- `front()`: the oldest entry, given the newest and the rest.
abbrev pub front : Ptr → List Ptr → Ptr
front b [] = b
front b (c ∷ cs) = front c cs

module _ (lo : Liblo) where
  abbrev pub Sender : Type 0
  Sender = OscSender lo.World

  -- OscSender()
  unfoldable pub make_sender : lo.World → Sender
  make_sender w = record {
    address = null;
    message = null;
    bundles = [];
    address_pattern = [];
    message_in_progress = false;
    bundle_in_progress = false;
    world = w;
  }

  unfoldable pub free_address : Sender → lo.World
  free_address s = if is_set s.address then lo.address_free s.address s.world else s.world

  unfoldable pub setup : Text → ℕ → Sender → Sender
  unfolding free_address
  setup address port s =
      let made = lo.address_new (c_string address) (c_string (decimal port)) (free_address s) in
      record s { address = made.1; world = made.0 }

  -- OscSender(address, port)
  unfoldable pub make_sender_to : Text → ℕ → lo.World → Sender
  unfolding make_sender setup
  make_sender_to address port w = setup address port (make_sender w)

  free_message : Sender → lo.World
  free_message s = if is_set s.message then lo.message_free s.message s.world else s.world

  unfoldable pub clear : Sender → Sender
  unfolding free_message
  clear s = elim s.bundles [
    | [] ↦ record s { world = free_message s; address_pattern = []; message = null }
    | b ∷ bs ↦ record s {
      world = lo.bundle_free_recursive (front b bs) s.world;
      bundles = [];
      address_pattern = [];
      message = null;
    }
  ]

  -- ~OscSender()
  unfoldable pub destroy : Sender → Sender
  unfolding free_address clear
  destroy s = clear (record s { world = free_address s })

  -- What `send` does once its first guard has passed.
  transmit : Sender → Outcome Sender
  unfolding clear
  transmit s = elim s.bundles [
    | [] ↦
        if is_set s.message
        then done (
            clear (record s {
              world = lo.send_message s.address (c_string s.address_pattern) s.message s.world;
            }))
        else thrown send_exception s
    | b ∷ bs ↦ done (clear (record s { world = lo.send_bundle s.address (front b bs) s.world }))
  ]

  unfoldable pub send : Sender → Outcome Sender
  unfolding transmit
  send s =
      if not (is_set s.address) || s.bundle_in_progress || s.message_in_progress
      then thrown send_exception s
      else transmit s

  unfoldable pub get_hostname : Sender → Text
  get_hostname s = if is_set s.address then lo.address_get_hostname s.address s.world else []

  -- With no address the std::string is made from a NULL pointer.
  unfoldable pub get_port : Sender → Result Text
  get_port s =
      if is_set s.address then returned (lo.address_get_port s.address s.world) else undetermined

  unfoldable pub get_url : Sender → Text
  get_url s = if is_set s.address then lo.address_get_url s.address s.world else []

  print_bundle : Sender → lo.World
  print_bundle s = elim s.bundles [ [] ↦ s.world | b ∷ bs ↦ lo.bundle_pp b s.world ]

  unfoldable pub print : Sender → Sender
  unfolding print_bundle
  print s = record s {
    world = if is_set s.message then lo.message_pp s.message (print_bundle s) else print_bundle s;
  }
