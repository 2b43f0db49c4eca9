-- ===== src/Sockets/Texts.antt =====
-- The texts of the exceptions of simple_sockets.cpp.
use cpp_owl_common.Prelude.{ℕ, List, [], ◌∷◌}

-- "Broken pipe"
abbrev pub broken_pipe : List ℕ
broken_pipe = 66 ∷ 114 ∷ 111 ∷ 107 ∷ 101 ∷ 110 ∷ 32 ∷ 112 ∷ 105 ∷ 112 ∷ 101 ∷ []

-- "Connection closed by receiver (broken pipe)"
abbrev pub closed_by_receiver : List ℕ
closed_by_receiver =
    67 ∷ 111 ∷ 110 ∷ 110 ∷ 101 ∷ 99 ∷ 116 ∷ 105 ∷ 111 ∷ 110 ∷ 32 ∷ 99 ∷ 108 ∷ 111 ∷ 115 ∷ 101 ∷ 100
    ∷ 32 ∷ 98 ∷ 121 ∷ 32 ∷ 114 ∷ 101 ∷ 99 ∷ 101 ∷ 105 ∷ 118 ∷ 101 ∷ 114 ∷ 32 ∷ 40 ∷ 98 ∷ 114 ∷ 111
    ∷ 107 ∷ 101 ∷ 110 ∷ 32 ∷ 112 ∷ 105 ∷ 112 ∷ 101 ∷ 41 ∷ []

-- "Error sending data over socket: "
abbrev pub error_sending : List ℕ
error_sending =
    69 ∷ 114 ∷ 114 ∷ 111 ∷ 114 ∷ 32 ∷ 115 ∷ 101 ∷ 110 ∷ 100 ∷ 105 ∷ 110 ∷ 103 ∷ 32 ∷ 100 ∷ 97 ∷ 116
    ∷ 97 ∷ 32 ∷ 111 ∷ 118 ∷ 101 ∷ 114 ∷ 32 ∷ 115 ∷ 111 ∷ 99 ∷ 107 ∷ 101 ∷ 116 ∷ 58 ∷ 32 ∷ []

-- "Error connecting: "
abbrev pub error_connecting : List ℕ
error_connecting =
    69 ∷ 114 ∷ 114 ∷ 111 ∷ 114 ∷ 32 ∷ 99 ∷ 111 ∷ 110 ∷ 110 ∷ 101 ∷ 99 ∷ 116 ∷ 105 ∷ 110 ∷ 103 ∷ 58
    ∷ 32 ∷ []

-- "socket error"
abbrev pub socket_error : List ℕ
socket_error = 115 ∷ 111 ∷ 99 ∷ 107 ∷ 101 ∷ 116 ∷ 32 ∷ 101 ∷ 114 ∷ 114 ∷ 111 ∷ 114 ∷ []

-- "remote side disconnected"
abbrev pub remote_disconnected : List ℕ
remote_disconnected =
    114 ∷ 101 ∷ 109 ∷ 111 ∷ 116 ∷ 101 ∷ 32 ∷ 115 ∷ 105 ∷ 100 ∷ 101 ∷ 32 ∷ 100 ∷ 105 ∷ 115 ∷ 99 ∷ 111
    ∷ 110 ∷ 110 ∷ 101 ∷ 99 ∷ 116 ∷ 101 ∷ 100 ∷ []

-- "bad file descriptor"
abbrev pub bad_descriptor : List ℕ
bad_descriptor =
    98 ∷ 97 ∷ 100 ∷ 32 ∷ 102 ∷ 105 ∷ 108 ∷ 101 ∷ 32 ∷ 100 ∷ 101 ∷ 115 ∷ 99 ∷ 114 ∷ 105 ∷ 112 ∷ 116
    ∷ 111 ∷ 114 ∷ []
