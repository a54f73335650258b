-- ===== src/Received/Tests.antt =====
-- Examples: a message with an int64, a blob and a string.
use lopack.Prelude.{
  ℕ, true, false, List, [], ◌∷◌, none, some, ◌≡◌, refl, ◌↔◌, get_elem?, inl, arith, map, length,
}
use lopack.Prelude.Int.{signed32, signed64}
use lopack.Prelude.Text.{codes}
use lopack.Types.{Blob}
use lopack.Outcome.{returned, raised, undetermined, type_exception, arg_exception}
use lopack.Liblo.{Arg}
use lopack.Received.Print.{print_all_args, print_each, print_all_args-each}
use lopack.Received.Read.{
  num_args, ReceivedMessage, check_address_and_types, as_bool, as_char, as_int32, as_int64,
  as_float, as_double, as_string, as_symbol, as_midi_message, as_time_tag, as_blob,
}
use lopack.Received.Try.{try_bool, try_char, try_int, try_uint, try_float, try_double, try_string}
use lopack.Received.Contract.{tag, has_data}
use lopack.Received.Decode.{accessors_decode, as_blob-unchecked}
use lopack.Received.Convert.{try_convert}
use lopack.Received.Signed.{try_int-int64}
use lopack.Received.Match.{check_address_and_types_iff}
use lopack.Received.Example.{list_reader, plain_casts, list-Contents, received}

abbrev three_args : List Arg
three_args = Arg.int64 300 ∷ Arg.blob (1 ∷ 2 ∷ []) ∷ Arg.string (codes "hi") ∷ []

abbrev hello : ReceivedMessage
hello = received (codes "/hello")

accessors_decode_example :
    (as_bool list_reader 0 hello three_args ≡ raised type_exception)
    × (as_char list_reader 0 hello three_args ≡ raised type_exception)
    × (as_int32 list_reader 0 hello three_args ≡ raised type_exception)
    × (as_int64 list_reader 0 hello three_args ≡ returned 300)
    × (as_float list_reader 0 hello three_args ≡ raised type_exception)
    × (as_double list_reader 0 hello three_args ≡ raised type_exception)
    × (as_string list_reader 0 hello three_args ≡ raised type_exception)
    × (as_symbol list_reader 0 hello three_args ≡ raised type_exception)
    × (as_midi_message list_reader 0 hello three_args ≡ raised type_exception)
    × (as_time_tag list_reader 0 hello three_args ≡ raised type_exception)
accessors_decode_example =
    accessors_decode list_reader hello three_args three_args 0 (list-Contents 1 three_args)

as_blob-unchecked_example :
    ((a : Arg)
      → get_elem? three_args 1 ≡ some a
      → has_data a ≡ true
      → (b : Blob) × (as_blob list_reader 1 hello three_args ≡ returned b)
        × ((v : List ℕ) → a ≡ Arg.blob v → b ≡ record { content = v; size = length v }))
    × ((a : Arg)
        → get_elem? three_args 1 ≡ some a
        → has_data a ≡ false
        → as_blob list_reader 1 hello three_args ≡ undetermined)
    × (get_elem? three_args 1 ≡ none
        → as_blob list_reader 1 hello three_args ≡ raised arg_exception)
as_blob-unchecked_example =
    as_blob-unchecked list_reader hello three_args three_args 1 (list-Contents 1 three_args)

try_convert_example :
    (try_bool list_reader plain_casts true 0 hello three_args ≡ returned (true, true))
    × (try_char list_reader plain_casts 9 0 hello three_args ≡ returned (44, true))
    × (try_int list_reader plain_casts 9 0 hello three_args ≡ returned (300, true))
    × (try_uint list_reader plain_casts 9 0 hello three_args ≡ returned (300, true))
    × (try_float list_reader plain_casts 9 0 hello three_args ≡ returned (0, true))
    × (try_double list_reader plain_casts 9 0 hello three_args ≡ returned (0, true))
    × (try_string list_reader [] 0 hello three_args ≡ returned ([], false))
try_convert_example =
    try_convert list_reader plain_casts hello three_args three_args 0 (list-Contents 1 three_args)
      true 9 []

try_int-int64_example :
    (d : ℕ) × (try_int list_reader plain_casts 9 0 hello three_args ≡ returned (d, true))
    × (signed32 d ≡ signed64 300)
try_int-int64_example =
    try_int-int64 list_reader plain_casts hello three_args three_args 0 9 300
      (list-Contents 1 three_args) refl (inl (omega arith))

check_address_and_types_iff_example :
    (check_address_and_types list_reader (codes "/hello") (codes "hbs") hello three_args ≡ true)
    ↔ ((codes "/hello" ≡ codes "/hello") × (codes "hbs" ≡ map tag three_args))
check_address_and_types_iff_example =
    check_address_and_types_iff list_reader hello three_args three_args (codes "/hello")
      (codes "hbs") (list-Contents 1 three_args)

print_all_args-each_example :
    print_all_args list_reader (received (codes "/print")) (Arg.nil ∷ Arg.int32 7 ∷ [])
    ≡ print_each list_reader 2 0 (received (codes "/print")) (Arg.nil ∷ Arg.int32 7 ∷ [])
unfolding num_args
print_all_args-each_example =
    print_all_args-each list_reader (received (codes "/print")) (λ k a w. (refl, refl))
      (Arg.nil ∷ Arg.int32 7 ∷ [])
