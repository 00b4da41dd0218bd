-- ===== src/Detail/Tables/Others.antt =====
-- RRegistry/include/RRegistry/Detail.hpp: the tables of the floats, Booleans and strings.
-- Adjacent C++ literals are joined.
use rbase.Base.{true, false, List, [], ◌∷◌}
use rbase.Value.{float_bits, truth}
use rbase.Detail.Entry.{EntryDetail, EntryDetailLite}

-- `FloatDetail`.
abbrev pub float_detail : List EntryDetail
float_detail =
    record {
      name = "MVMT_SPEED_MULTIPLIER";
      brief = "Factor for general movement speed.";
      detailed = "";
      def = float_bits 0x3f80_0000;
      min = float_bits 0;
      max = float_bits 0x42c8_0000;
    }
    ∷ []

-- `DoubleDetail`.
abbrev pub double_detail : List EntryDetail
double_detail = []

-- `BoolDetail`.
abbrev pub bool_detail : List EntryDetail
bool_detail =
    record {
      name = "TEST_RBREAKOUT_COMMUNICATION";
      brief = "Test the communication channel between RMaster and RBrreakout.";
      detailed = "";
      def = truth false;
      min = truth false;
      max = truth true;
    }
    ∷ record {
      name = "TEST_PIPE_COMMUNICATION";
      brief = "Test the communication to and from pipe connections.";
      detailed = "";
      def = truth false;
      min = truth false;
      max = truth true;
    }
    ∷ record {
      name = "REDY_RBREAKOUT";
      brief = "Mark RBreakout as ready, should be received from RBreakout.";
      detailed = "";
      def = truth false;
      min = truth false;
      max = truth true;
    }
    ∷ record {
      name = "MVMT_PARKBREAK";
      brief = "Parkbreak status";
      detailed =
          "True means that all halfbridges short to ground, generating a low-impedance eddy current break.";
      def = truth false;
      min = truth false;
      max = truth true;
    }
    ∷ record {
      name = "BRST_RBREAKOUT_MOVEMENT";
      brief = "Send movement updates as a burst package to RBReakout";
      detailed = "";
      def = truth false;
      min = truth false;
      max = truth true;
    }
    ∷ record {
      name = "PERS_ENABLE";
      brief = "Enable persistency policy for the registry.";
      detailed = "";
      def = truth false;
      min = truth false;
      max = truth true;
    }
    ∷ record {
      name = "PERS_ACTIVE";
      brief = "Marks the state (active or inactive) of the registry persistency policy.";
      detailed = "";
      def = truth false;
      min = truth false;
      max = truth true;
    }
    ∷ record {
      name = "CTRL_RESET_SEQ_NUMBERS";
      brief =
          "Reset sequence numbers on all clients and hosts, so that messages can be received again.";
      detailed = "";
      def = truth false;
      min = truth false;
      max = truth true;
    }
    ∷ []

-- `StringDetail`.
abbrev pub string_detail : List EntryDetailLite
string_detail =
    record {
      name = "VERS_ARDUINO_PROG";
      brief = "Arduino version (Git Hash)";
      detailed = "The Git hash of the installed version on the Arduino.";
    }
    ∷ []
