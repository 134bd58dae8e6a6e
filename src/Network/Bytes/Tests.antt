-- ===== src/Network/Bytes/Tests.antt =====
-- Numbers and addresses on concrete values.
use redox.Network.Bytes.{N16, N32}

abbrev port : N16
port = record { b0 = 1; b1 = 187 }

abbrev sequence : N32
sequence = record { b0 = 1; b1 = 2; b2 = 3; b3 = 4 }
