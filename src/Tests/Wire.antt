-- ===== src/Tests/Wire.antt =====
-- Concrete messages, and a cursor that is broadcast.
use cs4730_collaborative_tex.Base.{
  ℕ, ◌≡◌, ◌≢◌, ◌⊎◌, refl, [], ◌∷◌, some, arith, true, false, if◌then◌else◌, get_elem?,
}
use cs4730_collaborative_tex.Base.Eq.{nat_eq, ◌==◌}
use cs4730_collaborative_tex.Base.Int.{pos, negsuc}
use cs4730_collaborative_tex.Dict.{lookup}
use cs4730_collaborative_tex.Rga.{insert_op, find, sentinel, visible_at, document, id_eq}
use cs4730_collaborative_tex.Rga.Queries.{visible_offset_of, visible_at-visible_offset_of}
use cs4730_collaborative_tex.Serializer.{
  ok, fault, past_end, encode, decode, encode_cursor, WireOperation,
}
use cs4730_collaborative_tex.Serializer.State.{encode_state, decode_state, wire_state}
use cs4730_collaborative_tex.Serializer.RoundTrip.{decode-encode}
use cs4730_collaborative_tex.Serializer.Snapshots.{decode_state-encode_state}
use cs4730_collaborative_tex.Serializer.Reads.{decode_state_in_bounds}
use cs4730_collaborative_tex.Cursor.{CursorSync, broadcast, receive, receive-broadcast}
use cs4730_collaborative_tex.Tests.Documents.{one_letter, one_letter-IsValid, first_id}

-- A clock below zero and the largest site.
abbrev odd_operation : WireOperation
odd_operation = record {
  type = insert_op;
  id = record { clock = negsuc 4; site = 4294967295 };
  left = record { clock = pos 2147483647; site = 7 };
  value = 255;
}

decode-encode_example : decode (encode odd_operation) ≡ ok odd_operation
decode-encode_example = decode-encode odd_operation (record {
  id_fits = record { clock_fits = omega arith; site_fits = omega arith };
  left_fits = record { clock_fits = omega arith; site_fits = omega arith };
})

decode_state-encode_state_example :
    decode_state (encode_state one_letter) ≡ ok (wire_state one_letter)
decode_state-encode_state_example = decode_state-encode_state one_letter (record {
  site_fits = omega arith;
  clock_fits = omega arith;
  nodes_fit = (
    record {
      id_fits = record { clock_fits = omega arith; site_fits = omega arith };
      left_fits = record { clock_fits = omega arith; site_fits = omega arith };
    },
    tt,
  );
  size_fits = omega arith;
})

-- A snapshot that counts more nodes than it holds.
decode_state_in_bounds_example :
    decode_state (2 ∷ 0 ∷ 0 ∷ 0 ∷ 12 ∷ 0 ∷ 0 ∷ 0 ∷ 7 ∷ 0 ∷ 0 ∷ 0 ∷ 1 ∷ 0 ∷ 0 ∷ 0 ∷ 1 ∷ [])
    ≢ fault past_end
decode_state_in_bounds_example =
    decode_state_in_bounds (2 ∷ 0 ∷ 0 ∷ 0 ∷ 12 ∷ 0 ∷ 0 ∷ 0 ∷ 7 ∷ 0 ∷ 0 ∷ 0 ∷ 1 ∷ 0 ∷ 0 ∷ 0 ∷ 1 ∷ [])

abbrev cursor_of : ℕ → CursorSync
cursor_of site = record { site = site; running = true; remote_cursors = (9, pos 4) ∷ [] }

sent_cursor : broadcast (negsuc 0) (cursor_of 3) ≡ some (encode_cursor 3 (negsuc 0))
unfolding broadcast
sent_cursor = refl

receive-broadcast_example :
    let me = cursor_of 5 in
    let got = receive (encode_cursor 3 (negsuc 0)) me in
    (((cursor_of 3).site ≡ me.site) × (got ≡ (me, false)))
    ⊎ (((cursor_of 3).site ≢ me.site)
        × (got.1 ≡ true)
        × ((site : ℕ)
            → lookup site got.0.remote_cursors ≡ (
                if (cursor_of 3).site == site
                then some (negsuc 0)
                else lookup site me.remote_cursors)))
receive-broadcast_example =
    receive-broadcast (negsuc 0) (cursor_of 3) (cursor_of 5) (encode_cursor 3 (negsuc 0))
      (omega arith) (omega arith) sent_cursor

found_first :
    find first_id one_letter.seq
    ≡ some (record { id = first_id; value = b'a'; tombstoned = false; left = sentinel })
unfolding find
found_first = refl

visible_at-visible_offset_of_example :
    (k : ℕ) × (visible_offset_of first_id one_letter.seq ≡ pos k)
    × (visible_at (pos k) one_letter.seq ≡ first_id)
    × (get_elem? (document one_letter.seq) k ≡ some b'a')
visible_at-visible_offset_of_example =
    visible_at-visible_offset_of one_letter first_id
      (record { id = first_id; value = b'a'; tombstoned = false; left = sentinel })
      one_letter-IsValid found_first refl
