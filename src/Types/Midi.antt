-- ===== src/Types/Midi.antt =====
-- MidiMessage: reversing the bytes.
use lopack.Prelude.{true, false, ◌≡◌, refl}
use lopack.Types.{MidiMessage, little, big, midi_message, midi_value}

-- On either kind of host a message that was copied in reverse has the 32-bit value that the original
-- has on the other kind. Reversing twice gives the original back, and so does the plain copy.
midi_value-reverse :
    (m : MidiMessage)
    → (midi_value little (midi_message m true) ≡ midi_value big m)
      × (midi_value big (midi_message m true) ≡ midi_value little m)
      × (midi_message (midi_message m true) true ≡ m)
      × (midi_message m false ≡ m)
unfolding midi_value midi_message
midi_value-reverse m = (refl, refl, refl, refl)
