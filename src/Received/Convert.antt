-- ===== src/Received/Convert.antt =====
-- What the try functions leave in `*dest` and return, for a message of known contents.
use lopack.Prelude.{ℕ, Bool, List, Option, none, ◌≡◌, refl, arith, ap, ◌∙◌, get_elem?}
use lopack.Prelude.Text.{Text}
use lopack.Outcome.{returned, and_return}
use lopack.Liblo.{Arg}
use lopack.Received.Reader.{Reader, Casts}
use lopack.Received.Read.{
  ReceivedMessage, type_tag, as_bool, as_char, as_int32, as_int64, as_float, as_double, as_string,
  as_symbol,
}
use lopack.Received.Try.{try_bool, try_char, try_int, try_uint, try_float, try_double, try_string}
use lopack.Received.Contract.{tag, tag_of, Contents, type_tag-Contents}
use lopack.Received.Decode.{
  bool_of, char_of, int32_of, int64_of, float_of, double_of, string_of, symbol_of, decode_bool,
  decode_char, decode_int32, decode_int64, decode_float, decode_double, decode_string,
  decode_symbol,
}
use lopack.Received.Conversion.{
  written, char_from, text_from, bool_from, int_from, uint_from, float_from, double_from,
}

module _ {W : Type 0} (lo : Reader W) (to : Casts) (msg : ReceivedMessage) (w : W) (args : List Arg)
    (at : ℕ) (c : Contents lo msg.message w args) where
  -- What the class sees of the argument at the index.
  reads :
      (o : Option Arg)
      → get_elem? args at ≡ o
      → (type_tag lo at msg w ≡ tag_of lo o)
        × (as_bool lo at msg w ≡ bool_of o)
        × (as_char lo at msg w ≡ char_of o)
        × (as_int32 lo at msg w ≡ int32_of o)
        × (as_int64 lo at msg w ≡ int64_of o)
        × (as_float lo at msg w ≡ float_of o)
        × (as_double lo at msg w ≡ double_of o)
        × (as_string lo at msg w ≡ string_of o)
        × (as_symbol lo at msg w ≡ symbol_of o)
  reads o e = (
    type_tag-Contents lo msg w args at c ∙ ap (tag_of lo) e,
    decode_bool lo msg w args at c o e,
    decode_char lo msg w args at c o e,
    decode_int32 lo msg w args at c o e,
    decode_int64 lo msg w args at c o e,
    decode_float lo msg w args at c o e,
    decode_double lo msg w args at c o e,
    decode_string lo msg w args at c o e,
    decode_symbol lo msg w args at c o e,
  )

  convert_bool :
      (o : Option Arg) (dest : Bool)
      → get_elem? args at ≡ o
      → try_bool lo to dest at msg w ≡ returned (written dest (bool_from to o))
  unfolding try_bool tag
  convert_bool none dest e = ground (
    arith,
    type_tag-Contents lo msg w args at c,
    decode_bool lo msg w args at c none e,
    decode_int32 lo msg w args at c none e,
    decode_int64 lo msg w args at c none e,
    decode_float lo msg w args at c none e,
    decode_double lo msg w args at c none e,
  )
  convert_bool o dest e = ground (
    arith,
    type_tag-Contents lo msg w args at c,
    decode_bool lo msg w args at c o e,
    decode_int32 lo msg w args at c o e,
    decode_int64 lo msg w args at c o e,
    decode_float lo msg w args at c o e,
    decode_double lo msg w args at c o e,
  )

  convert_char :
      (o : Option Arg) (dest : ℕ)
      → get_elem? args at ≡ o
      → try_char lo to dest at msg w ≡ returned (written dest (char_from o))
  unfolding try_char tag
  convert_char none dest e = ground (
    arith,
    type_tag-Contents lo msg w args at c,
    decode_char lo msg w args at c none e,
    decode_int32 lo msg w args at c none e,
    decode_int64 lo msg w args at c none e,
  )
  convert_char o dest e = ground (
    arith,
    type_tag-Contents lo msg w args at c,
    decode_char lo msg w args at c o e,
    decode_int32 lo msg w args at c o e,
    decode_int64 lo msg w args at c o e,
  )

  convert_int :
      (o : Option Arg) (dest : ℕ)
      → get_elem? args at ≡ o
      → try_int lo to dest at msg w ≡ and_return (int_from to o) (written dest)
  unfolding try_int tag
  convert_int none dest e = ground (
    arith,
    type_tag-Contents lo msg w args at c,
    decode_bool lo msg w args at c none e,
    decode_int32 lo msg w args at c none e,
    decode_int64 lo msg w args at c none e,
    decode_float lo msg w args at c none e,
    decode_double lo msg w args at c none e,
  )
  convert_int o dest e = ground (
    arith,
    type_tag-Contents lo msg w args at c,
    decode_bool lo msg w args at c o e,
    decode_int32 lo msg w args at c o e,
    decode_int64 lo msg w args at c o e,
    decode_float lo msg w args at c o e,
    decode_double lo msg w args at c o e,
  )

  convert_uint :
      (o : Option Arg) (dest : ℕ)
      → get_elem? args at ≡ o
      → try_uint lo to dest at msg w ≡ and_return (uint_from to o) (written dest)
  unfolding try_uint tag
  convert_uint none dest e = ground (
    arith,
    type_tag-Contents lo msg w args at c,
    decode_bool lo msg w args at c none e,
    decode_int32 lo msg w args at c none e,
    decode_int64 lo msg w args at c none e,
    decode_float lo msg w args at c none e,
    decode_double lo msg w args at c none e,
  )
  convert_uint o dest e = ground (
    arith,
    type_tag-Contents lo msg w args at c,
    decode_bool lo msg w args at c o e,
    decode_int32 lo msg w args at c o e,
    decode_int64 lo msg w args at c o e,
    decode_float lo msg w args at c o e,
    decode_double lo msg w args at c o e,
  )

  convert_float :
      (o : Option Arg) (dest : ℕ)
      → get_elem? args at ≡ o
      → try_float lo to dest at msg w ≡ and_return (float_from to o) (written dest)
  unfolding try_float tag
  convert_float none dest e = ground (
    arith,
    type_tag-Contents lo msg w args at c,
    decode_bool lo msg w args at c none e,
    decode_int32 lo msg w args at c none e,
    decode_int64 lo msg w args at c none e,
    decode_float lo msg w args at c none e,
    decode_double lo msg w args at c none e,
  )
  convert_float o dest e = ground (
    arith,
    type_tag-Contents lo msg w args at c,
    decode_bool lo msg w args at c o e,
    decode_int32 lo msg w args at c o e,
    decode_int64 lo msg w args at c o e,
    decode_float lo msg w args at c o e,
    decode_double lo msg w args at c o e,
  )

  convert_double :
      (o : Option Arg) (dest : ℕ)
      → get_elem? args at ≡ o
      → try_double lo to dest at msg w ≡ returned (written dest (double_from to o))
  unfolding try_double tag
  convert_double none dest e = ground (
    arith,
    type_tag-Contents lo msg w args at c,
    decode_bool lo msg w args at c none e,
    decode_int32 lo msg w args at c none e,
    decode_int64 lo msg w args at c none e,
    decode_float lo msg w args at c none e,
    decode_double lo msg w args at c none e,
  )
  convert_double o dest e = ground (
    arith,
    type_tag-Contents lo msg w args at c,
    decode_bool lo msg w args at c o e,
    decode_int32 lo msg w args at c o e,
    decode_int64 lo msg w args at c o e,
    decode_float lo msg w args at c o e,
    decode_double lo msg w args at c o e,
  )

  convert_string :
      (o : Option Arg) (dest : Text)
      → get_elem? args at ≡ o
      → try_string lo dest at msg w ≡ returned (written dest (text_from o))
  unfolding try_string tag
  convert_string none dest e = ground (
    arith,
    type_tag-Contents lo msg w args at c,
    decode_string lo msg w args at c none e,
    decode_symbol lo msg w args at c none e,
  )
  convert_string o dest e = ground (
    arith,
    type_tag-Contents lo msg w args at c,
    decode_string lo msg w args at c o e,
    decode_symbol lo msg w args at c o e,
  )

  -- On a message that holds `args`, the try functions never throw. Each one writes the converted
  -- value and returns true if the argument at the index has one of the types that it takes, and
  -- otherwise, also beyond the last argument, leaves `*dest` alone and returns false. What is undefined
  -- is to read a float or double as an int or unsigned int, or a double as a float, where it is out of
  -- the type's range, and nothing else.
  pub try_convert :
      (b : Bool) (n : ℕ) (t : Text)
      → (try_bool lo to b at msg w ≡ returned (written b (bool_from to (get_elem? args at))))
        × (try_char lo to n at msg w ≡ returned (written n (char_from (get_elem? args at))))
        × (try_int lo to n at msg w ≡ and_return (int_from to (get_elem? args at)) (written n))
        × (try_uint lo to n at msg w ≡ and_return (uint_from to (get_elem? args at)) (written n))
        × (try_float lo to n at msg w ≡ and_return (float_from to (get_elem? args at)) (written n))
        × (try_double lo to n at msg w ≡ returned (written n (double_from to (get_elem? args at))))
        × (try_string lo t at msg w ≡ returned (written t (text_from (get_elem? args at))))
  try_convert b n t =
      let o = get_elem? args at in
      (
        convert_bool o b refl,
        convert_char o n refl,
        convert_int o n refl,
        convert_uint o n refl,
        convert_float o n refl,
        convert_double o n refl,
        convert_string o t refl,
      )
