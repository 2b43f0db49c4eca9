-- ===== src/Exchange/Answers.antt =====
-- What a world model answers to a client, from its calls of `client::makeAttrAliasMsg`,
-- `client::makeOriginAliasMsg`, `client::makeDataMessage`, `client::makeRequestComplete` and
-- `ClientSocket::send` to the client's of `MessageReceiver::getNextMessage` and the decoders.
use cpp_owl_common.Prelude.{ℕ, ◌≡◌, ap, ◌∙◌, List, [], ◌∷◌, All, length, map, set, arith}
use cpp_owl_common.Netbuffer.Endian.{Host, big_bytes}
use cpp_owl_common.Message.Draft.Laws.{frame, length-frame, set-frame}
use cpp_owl_common.Receiver.{Event, new_receiver}
use cpp_owl_common.Receiver.Rounds.{bytes_of, AreQuiet}
use cpp_owl_common.Sockets.{ClientSocket, Call}
use cpp_owl_common.Sockets.Stream.{taken}
use cpp_owl_common.Sockets.Delivery.{Sent}
use cpp_owl_common.WorldModel.Types.{IsU32}
use cpp_owl_common.WorldModel.Client.Alias.{
  AliasType, make_attr_alias_msg, make_origin_alias_msg, decode_attr_alias_msg,
  decode_origin_alias_msg,
}
use cpp_owl_common.WorldModel.Client.Alias.RoundTrip.{
  IsAlias, wire_aliases, make_attr_alias_msg-frame, decode-make_attr_alias_msg,
  decode-make_origin_alias_msg,
}
use cpp_owl_common.WorldModel.Client.Data.{AliasedWorldData, make_data_message, decode_data_message}
use cpp_owl_common.WorldModel.Client.Data.RoundTrip.{
  IsWorldData, wire_world_data, make_data_message-frame, decode-make_data_message,
}
use cpp_owl_common.WorldModel.Client.Ticket.{make_request_complete, decode_request_complete}
use cpp_owl_common.WorldModel.Client.Ticket.RoundTrip.{
  make_request_complete-frame, decode-make_ticket,
}
use cpp_owl_common.Exchange.Codec.{Codec, Post, made, IsSendable, Arrive, posts-Arrive}

pub make_origin_alias_msg-frame :
    (h : Host) (aliases : List AliasType)
    → make_origin_alias_msg h aliases ≡ frame (5 ∷ wire_aliases aliases)
unfolding make_origin_alias_msg
make_origin_alias_msg-frame h aliases =
    ap (λ (b : List ℕ). set b 4 5) (make_attr_alias_msg-frame h aliases)
    ∙ set-frame 4 5 (wire_aliases aliases)

pub length-make_origin_alias_msg :
    (h : Host) (aliases : List AliasType)
    → length (make_origin_alias_msg h aliases) ≡ length (make_attr_alias_msg h aliases)
length-make_origin_alias_msg h aliases = omega (
  arith,
  ap length (make_origin_alias_msg-frame h aliases),
  ap length (make_attr_alias_msg-frame h aliases),
  length-frame (5 ∷ wire_aliases aliases),
  length-frame (4 ∷ wire_aliases aliases),
)

module _ (h h' : Host) where
  abbrev attr_alias_codec : Codec
  attr_alias_codec = record {
    Message = List AliasType;
    make = make_attr_alias_msg h;
    decode = decode_attr_alias_msg h';
    IsMessage = λ aliases. All IsAlias aliases × IsU32 (length aliases);
    body = λ aliases. 4 ∷ wire_aliases aliases;
    make-frame = make_attr_alias_msg-frame h;
    decode-make = λ aliases ok short.
        decode-make_attr_alias_msg h h' aliases ok.0 ok.1 (omega (arith, short));
  }

  abbrev origin_alias_codec : Codec
  origin_alias_codec = record {
    Message = List AliasType;
    make = make_origin_alias_msg h;
    decode = λ message. (decode_origin_alias_msg h' message).0;
    IsMessage = λ aliases. All IsAlias aliases × IsU32 (length aliases);
    body = λ aliases. 5 ∷ wire_aliases aliases;
    make-frame = make_origin_alias_msg-frame h;
    decode-make = λ aliases ok short.
        ap (λ (x : List AliasType × List ℕ). x.0)
          (decode-make_origin_alias_msg h h' aliases ok.0 ok.1
            (omega (arith, short, length-make_origin_alias_msg h aliases)));
  }

  abbrev data_message_codec : Codec
  data_message_codec = record {
    Message = AliasedWorldData × ℕ;
    make = λ m. make_data_message h m.0 m.1;
    decode = decode_data_message h';
    IsMessage = λ m. IsWorldData m.0 × IsU32 m.1;
    body = λ m. 8 ∷ wire_world_data m.0 m.1;
    make-frame = λ m. make_data_message-frame h m.0 m.1;
    decode-make =
        λ m ok short. decode-make_data_message h h' m.0 m.1 ok.0 ok.1 (omega (arith, short));
  }

  abbrev request_complete_codec : Codec
  request_complete_codec = record {
    Message = ℕ;
    make = make_request_complete h;
    decode = decode_request_complete h';
    IsMessage = IsU32;
    body = λ ticket. 6 ∷ big_bytes 4 ticket;
    make-frame = make_request_complete-frame h;
    decode-make = λ ticket ok short. (decode-make_ticket h h' ticket ok).0;
  }

pub data Answer : Type 0 where
  attr_aliases : List AliasType → Answer
  origin_aliases : List AliasType → Answer
  world_data : AliasedWorldData → ℕ → Answer
  request_complete : ℕ → Answer

-- An answer made on the first host for the second.
abbrev pub answer_post : Host → Host → Answer → Post
answer_post h h' (attr_aliases aliases) = (attr_alias_codec h h', aliases)
answer_post h h' (origin_aliases aliases) = (origin_alias_codec h h', aliases)
answer_post h h' (world_data wd ticket) = (data_message_codec h h', (wd, ticket))
answer_post h h' (request_complete ticket) = (request_complete_codec h h', ticket)

-- The aliases, data and completed requests that a world model on any host sends to a client, in any
-- order, in calls of `send` that all return, are what the client on any host gets, in the same order,
-- from successive calls of `getNextMessage` of a new receiver and the decoder of each message: if
-- their values fit their types and their messages are shorter than 2 ^ 31 bytes, no call of the
-- system takes more bytes than it is given, and the stream, however it is cut into chunks, carries
-- exactly the bytes that the system took, with no error and no end and nobody interrupting.
pub answers-Arrive :
    (h h' : Host) (answers : List Answer) (socket : ClientSocket) (calls : List Call)
    (events : List Event)
    → All IsSendable (map (answer_post h h') answers)
    → Sent (map made (map (answer_post h h') answers)) socket calls
    → AreQuiet events
    → bytes_of events ≡ taken calls
    → Arrive h' (new_receiver events []) (map (answer_post h h') answers)
answers-Arrive h h' answers socket calls events =
    posts-Arrive h' (map (answer_post h h') answers) socket calls events
