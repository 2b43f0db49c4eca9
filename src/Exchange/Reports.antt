-- ===== src/Exchange/Reports.antt =====
-- What a solver reports to a world model, from its calls of `solver::makeTypeAnnounceMsg`,
-- `solver::makeSolutionMsg`, `solver::makeCreateURI` and their like and of `ClientSocket::send` to the
-- world model's of `MessageReceiver::getNextMessage` and the decoders.
use cpp_owl_common.Prelude.{
  ℕ, ◌+◌, ◌≡◌, ap, List, [], ◌∷◌, ◌++◌, Bool, All, length, length-append, map, arith,
}
use cpp_owl_common.Netbuffer.Endian.{Host, big_bytes}
use cpp_owl_common.Netbuffer.Push.Laws.{wires, sized, sized_utf16}
use cpp_owl_common.Message.Draft.Laws.{length-frame}
use cpp_owl_common.Receiver.{Event, new_receiver}
use cpp_owl_common.Receiver.Rounds.{bytes_of, AreQuiet}
use cpp_owl_common.Sockets.{ClientSocket, Call}
use cpp_owl_common.Sockets.Stream.{taken}
use cpp_owl_common.Sockets.Delivery.{Sent}
use cpp_owl_common.WorldModel.Types.{Uri, U16String, GrailTime, IsString, IsTime, IsU32}
use cpp_owl_common.WorldModel.Solver.Announce.{
  AliasType, make_type_announce_msg, decode_type_announce_msg,
}
use cpp_owl_common.WorldModel.Solver.Announce.RoundTrip.{
  IsAlias, wire_aliases, make_type_announce_msg-frame, decode-make_type_announce_msg,
}
use cpp_owl_common.WorldModel.Solver.Solution.{SolutionData, make_solution_msg, decode_solution_msg}
use cpp_owl_common.WorldModel.Solver.Solution.RoundTrip.{
  IsSolution, wire_solutions, make_solution_msg-frame, decode-make_solution_msg,
}
use cpp_owl_common.WorldModel.Solver.Change.{
  make_create_uri, make_expire_uri, make_expire_attribute, make_delete_uri, make_delete_attribute,
  decode_create_uri, decode_expire_uri, decode_expire_attribute, decode_delete_uri,
  decode_delete_attribute,
}
use cpp_owl_common.WorldModel.Solver.Change.RoundTrip.{
  wire_timed_uri, wire_timed_attribute, wire_uri, wire_attribute, make_create_uri-frame,
  make_expire_uri-frame, make_expire_attribute-frame, make_delete_uri-frame,
  make_delete_attribute-frame, decode-make_timed_uri, decode-make_expire_attribute,
  decode-make_delete,
}
use cpp_owl_common.Exchange.Codec.{Codec, Post, made, IsSendable, Arrive, posts-Arrive}

-- An expiry of a URI is as long as its creation.
pub length-make_expire_uri :
    (h : Host) (uri : Uri) (time : GrailTime) (origin : U16String)
    → length (make_expire_uri h uri time origin) ≡ length (make_create_uri h uri time origin)
length-make_expire_uri h uri time origin =
    let body = wire_timed_uri uri time origin in
    omega (
      arith,
      ap length (make_expire_uri-frame h uri time origin),
      ap length (make_create_uri-frame h uri time origin),
      length-frame (5 ∷ body),
      length-frame (6 ∷ body),
    )

-- A deletion of an attribute with no name is four bytes longer than that of its URI.
pub length-make_delete_attribute :
    (h : Host) (uri : Uri) (origin : U16String)
    → length (make_delete_attribute h uri [] origin) ≡ length (make_delete_uri h uri origin) + 4
unfolding sized big_bytes
length-make_delete_attribute h uri origin =
    let name : List ℕ = sized_utf16 [] in
    let rest = wires (big_bytes 2) origin in
    omega (
      arith,
      ap length (make_delete_attribute-frame h uri [] origin),
      ap length (make_delete_uri-frame h uri origin),
      length-frame (9 ∷ wire_attribute uri [] origin),
      length-frame (7 ∷ wire_uri uri origin),
      length-append (sized_utf16 uri) (name ++ rest),
      length-append name rest,
      length-append (sized_utf16 uri) rest,
    )

module _ (h h' : Host) where
  abbrev type_announce_codec : Codec
  type_announce_codec = record {
    Message = List AliasType × U16String;
    make = λ m. make_type_announce_msg h m.0 m.1;
    decode = decode_type_announce_msg h';
    IsMessage = λ m. All IsAlias m.0 × IsU32 (length m.0) × IsString m.1;
    body = λ m. 1 ∷ (wire_aliases m.0 ++ wires (big_bytes 2) m.1);
    make-frame = λ m. make_type_announce_msg-frame h m.0 m.1;
    decode-make = λ m ok short.
        decode-make_type_announce_msg h h' m.0 m.1 ok.0 ok.1 ok.2 (omega (arith, short));
  }

  abbrev solution_codec : Codec
  solution_codec = record {
    Message = Bool × List SolutionData;
    make = λ m. make_solution_msg h m.0 m.1;
    decode = decode_solution_msg h';
    IsMessage = λ m. All IsSolution m.1 × IsU32 (length m.1);
    body = λ m. 4 ∷ wire_solutions m.0 m.1;
    make-frame = λ m. make_solution_msg-frame h m.0 m.1;
    decode-make =
        λ m ok short. decode-make_solution_msg h h' m.0 m.1 ok.0 ok.1 (omega (arith, short));
  }

  abbrev create_uri_codec : Codec
  create_uri_codec = record {
    Message = Uri × GrailTime × U16String;
    make = λ m. make_create_uri h m.0 m.1 m.2;
    decode = decode_create_uri h';
    IsMessage = λ m. IsString m.0 × IsTime m.1 × IsString m.2;
    body = λ m. 5 ∷ wire_timed_uri m.0 m.1 m.2;
    make-frame = λ m. make_create_uri-frame h m.0 m.1 m.2;
    decode-make = λ m ok short.
        (decode-make_timed_uri h h' m.0 m.2 m.1 ok.0 ok.2 ok.1 (omega (arith, short))).0;
  }

  abbrev expire_uri_codec : Codec
  expire_uri_codec = record {
    Message = Uri × GrailTime × U16String;
    make = λ m. make_expire_uri h m.0 m.1 m.2;
    decode = decode_expire_uri h';
    IsMessage = λ m. IsString m.0 × IsTime m.1 × IsString m.2;
    body = λ m. 6 ∷ wire_timed_uri m.0 m.1 m.2;
    make-frame = λ m. make_expire_uri-frame h m.0 m.1 m.2;
    decode-make = λ m ok short.
        (decode-make_timed_uri h h' m.0 m.2 m.1 ok.0 ok.2 ok.1
          (omega (arith, short, length-make_expire_uri h m.0 m.1 m.2))).1;
  }

  abbrev delete_uri_codec : Codec
  delete_uri_codec = record {
    Message = Uri × U16String;
    make = λ m. make_delete_uri h m.0 m.1;
    decode = decode_delete_uri h';
    IsMessage = λ m. IsString m.0 × IsString m.1;
    body = λ m. 7 ∷ wire_uri m.0 m.1;
    make-frame = λ m. make_delete_uri-frame h m.0 m.1;
    decode-make = λ m ok short.
        (decode-make_delete h h' m.0 [] m.1 ok.0 tt ok.1
          (omega (arith, short, length-make_delete_attribute h m.0 m.1))).0;
  }

  abbrev expire_attribute_codec : Codec
  expire_attribute_codec = record {
    Message = Uri × U16String × GrailTime × U16String;
    make = λ m. make_expire_attribute h m.0 m.1 m.3 m.2;
    decode = decode_expire_attribute h';
    IsMessage = λ m. IsString m.0 × IsString m.1 × IsTime m.2 × IsString m.3;
    body = λ m. 8 ∷ wire_timed_attribute m.0 m.1 m.2 m.3;
    make-frame = λ m. make_expire_attribute-frame h m.0 m.1 m.3 m.2;
    decode-make = λ m ok short.
        decode-make_expire_attribute h h' m.0 m.1 m.3 m.2 ok.0 ok.1 ok.3 ok.2
          (omega (arith, short));
  }

  abbrev delete_attribute_codec : Codec
  delete_attribute_codec = record {
    Message = Uri × U16String × U16String;
    make = λ m. make_delete_attribute h m.0 m.1 m.2;
    decode = decode_delete_attribute h';
    IsMessage = λ m. IsString m.0 × IsString m.1 × IsString m.2;
    body = λ m. 9 ∷ wire_attribute m.0 m.1 m.2;
    make-frame = λ m. make_delete_attribute-frame h m.0 m.1 m.2;
    decode-make =
        λ m ok short. (decode-make_delete h h' m.0 m.1 m.2 ok.0 ok.1 ok.2 (omega (arith, short))).1;
  }

pub data Report : Type 0 where
  types : List AliasType → U16String → Report
  solutions : Bool → List SolutionData → Report
  created : Uri → GrailTime → U16String → Report
  expired : Uri → GrailTime → U16String → Report
  deleted : Uri → U16String → Report
  expired_attribute : Uri → U16String → GrailTime → U16String → Report
  deleted_attribute : Uri → U16String → U16String → Report

-- A report made on the first host for the second.
abbrev pub report_post : Host → Host → Report → Post
report_post h h' (types aliases origin) = (type_announce_codec h h', (aliases, origin))
report_post h h' (solutions create_uris datas) = (solution_codec h h', (create_uris, datas))
report_post h h' (created uri time origin) = (create_uri_codec h h', (uri, time, origin))
report_post h h' (expired uri time origin) = (expire_uri_codec h h', (uri, time, origin))
report_post h h' (deleted uri origin) = (delete_uri_codec h h', (uri, origin))
report_post h h' (expired_attribute uri attribute time origin) =
    (expire_attribute_codec h h', (uri, attribute, time, origin))
report_post h h' (deleted_attribute uri attribute origin) =
    (delete_attribute_codec h h', (uri, attribute, origin))

-- The types, solutions and changes of the world that a solver on any host reports to a world model,
-- in any order, in calls of `send` that all return, are what the world model on any host gets, in the
-- same order, from successive calls of `getNextMessage` of a new receiver and the decoder of each
-- message: if their values fit their types and their messages are shorter than 2 ^ 31 bytes, no call
-- of the system takes more bytes than it is given, and the stream, however it is cut into chunks,
-- carries exactly the bytes that the system took, with no error and no end and nobody interrupting.
pub reports-Arrive :
    (h h' : Host) (reports : List Report) (socket : ClientSocket) (calls : List Call)
    (events : List Event)
    → All IsSendable (map (report_post h h') reports)
    → Sent (map made (map (report_post h h') reports)) socket calls
    → AreQuiet events
    → bytes_of events ≡ taken calls
    → Arrive h' (new_receiver events []) (map (report_post h h') reports)
reports-Arrive h h' reports socket calls events =
    posts-Arrive h' (map (report_post h h') reports) socket calls events
