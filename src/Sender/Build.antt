-- ===== src/Sender/Build.antt =====
-- Message and bundle building: beginMessage, the add functions, endMessage, beginBundle, endBundle.
use lopack.Prelude.{
  ℕ, Bool, true, false, not, List, [], ◌∷◌, ◌++◌, none, some, ltb, length, ◌||◌, if◌then◌else◌,
}
use lopack.Prelude.Text.{Text, c_string}
use lopack.Types.{MidiMessage, TimeTag, Symbol, Blob}
use lopack.Outcome.{
  Outcome, done, thrown, undefined, bundle_not_in_progress, message_in_progress,
  message_not_in_progress,
}
use lopack.Liblo.{
  Liblo, Ptr, null, Arg, true_flag, false_flag, nil, infinitum, char, int32, int64, float, double,
  string, symbol, midi, timetag,
}
use lopack.Sender.State.{Sender, is_set, has_some}

-- The timetag 0x0.1 that LO_TT_IMMEDIATE stands for.
abbrev pub immediate : TimeTag
immediate = record { sec = 0; frac = 1 }

-- `size() > 1`
abbrev pub more_than_one : List Ptr → Bool
more_than_one [] = false
more_than_one (b ∷ bs) = has_some bs

abbrev pub pop_back : List Ptr → List Ptr
pop_back [] = []
pop_back (b ∷ bs) = bs

module _ (lo : Liblo) where
  unfoldable pub begin_message : Text → Sender lo → Outcome (Sender lo)
  begin_message pattern s =
      if s.message_in_progress
      then thrown message_in_progress s
      else (let made = lo.message_new s.world in
          done (record s {
            message = made.1;
            world = made.0;
            message_in_progress = true;
            address_pattern = pattern;
          }))

  -- The guard that the add functions share, and the call of liblo behind it, which wants a message:
  -- a NULL pointer is none.
  unfoldable pub add_argument : Arg → Sender lo → Outcome (Sender lo)
  add_argument a s =
      if not s.message_in_progress
      then thrown message_not_in_progress s
      else (if is_set s.message
          then done (record s { world = lo.message_add s.message a s.world })
          else undefined)

  unfoldable pub add_bool : Bool → Sender lo → Outcome (Sender lo)
  unfolding add_argument
  add_bool var = add_argument (if var then true_flag else false_flag)

  unfoldable pub add_char : ℕ → Sender lo → Outcome (Sender lo)
  unfolding add_argument
  add_char var = add_argument (char var)

  unfoldable pub add_nil : Sender lo → Outcome (Sender lo)
  unfolding add_argument
  add_nil = add_argument nil

  unfoldable pub add_infinitum : Sender lo → Outcome (Sender lo)
  unfolding add_argument
  add_infinitum = add_argument infinitum

  unfoldable pub add_int32 : ℕ → Sender lo → Outcome (Sender lo)
  unfolding add_argument
  add_int32 var = add_argument (int32 var)

  unfoldable pub add_int64 : ℕ → Sender lo → Outcome (Sender lo)
  unfolding add_argument
  add_int64 var = add_argument (int64 var)

  unfoldable pub add_float : ℕ → Sender lo → Outcome (Sender lo)
  unfolding add_argument
  add_float var = add_argument (float var)

  unfoldable pub add_double : ℕ → Sender lo → Outcome (Sender lo)
  unfolding add_argument
  add_double var = add_argument (double var)

  -- Both overloads pass on a C string.
  unfoldable pub add_string : Text → Sender lo → Outcome (Sender lo)
  unfolding add_argument
  add_string var = add_argument (string (c_string var))

  -- A NULL value is no C string, which liblo asks for.
  unfoldable pub add_symbol : Symbol → Sender lo → Outcome (Sender lo)
  unfolding add_argument
  add_symbol var s = elim var.value [
    | none ↦ if s.message_in_progress then undefined else thrown message_not_in_progress s
    | some text ↦ add_argument (symbol (c_string text)) s
  ]

  unfoldable pub add_midi_message : MidiMessage → Sender lo → Outcome (Sender lo)
  unfolding add_argument
  add_midi_message var = add_argument (midi var)

  unfoldable pub add_timetag : TimeTag → Sender lo → Outcome (Sender lo)
  unfolding add_argument
  add_timetag var = add_argument (timetag var)

  -- liblo copies `size` bytes from the pointer: where the memory holds fewer, it reads out of bounds.
  unfoldable pub add_blob : Blob → Sender lo → Outcome (Sender lo)
  add_blob var s =
      if not s.message_in_progress
      then thrown message_not_in_progress s
      else (if not (is_set s.message) || ltb (length var.content) var.size
          then undefined
          else (let made = lo.blob_new var.size var.content s.world in
              done (record s {
                world = lo.blob_free made.1 (lo.message_add_blob s.message made.1 made.0);
              })))

  -- The copy of the pattern has a terminator of its own; `m_bundles.back()` wants a bundle, and
  -- liblo a message.
  close_in_bundle : Sender lo → Outcome (Sender lo)
  close_in_bundle s = elim s.bundles [
    | [] ↦ undefined
    | b ∷ bs ↦
        if is_set s.message
        then done (record s {
          world =
              lo.bundle_add_message b (c_string (s.address_pattern ++ 0 ∷ [])) s.message s.world;
          message = null;
          address_pattern = [];
          message_in_progress = false;
        })
        else undefined
  ]

  unfoldable pub end_message : Sender lo → Outcome (Sender lo)
  unfolding close_in_bundle
  end_message s =
      if not s.message_in_progress
      then thrown message_not_in_progress s
      else (if s.bundle_in_progress
          then close_in_bundle s
          else done (record s { message_in_progress = false }))

  -- A new bundle, added to the one at the back if there is one, and pushed.
  unfoldable pub open_bundle : TimeTag → Sender lo → Sender lo
  open_bundle tag s =
      let made = lo.bundle_new tag s.world in
      record s {
        world = elim s.bundles [ [] ↦ made.0 | b ∷ bs ↦ lo.bundle_add_bundle b made.1 made.0 ];
        bundles = made.1 ∷ s.bundles;
        bundle_in_progress = true;
      }

  -- beginBundle(), whose guard is not that of the overload below.
  unfoldable pub begin_bundle_now : Sender lo → Outcome (Sender lo)
  unfolding open_bundle
  begin_bundle_now s =
      if s.bundle_in_progress then thrown message_in_progress s else done (open_bundle immediate s)

  -- beginBundle(tag)
  unfoldable pub begin_bundle : TimeTag → Sender lo → Outcome (Sender lo)
  unfolding open_bundle
  begin_bundle tag s =
      if s.message_in_progress then thrown message_in_progress s else done (open_bundle tag s)

  -- The top bundle is not popped.
  pop_bundle : Sender lo → Sender lo
  pop_bundle s =
      if more_than_one s.bundles
      then record s { bundles = pop_back s.bundles }
      else record s { bundle_in_progress = false }

  unfoldable pub end_bundle : Sender lo → Outcome (Sender lo)
  unfolding pop_bundle
  end_bundle s =
      if not s.bundle_in_progress then thrown bundle_not_in_progress s else done (pop_bundle s)
