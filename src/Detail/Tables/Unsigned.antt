-- ===== src/Detail/Tables/Unsigned.antt =====
-- RRegistry/include/RRegistry/Detail.hpp: the tables of the unsigned integers.
-- Adjacent C++ literals are joined.
use rbase.Base.{List, [], ◌∷◌}
use rbase.Base.Int.{pos}
use rbase.Value.{integer}
use rbase.Detail.Entry.{EntryDetail}

-- `Uint8Detail`.
abbrev pub uint8_detail : List EntryDetail
uint8_detail =
    record {
      name = "MVMT_MOTOR_FL_CURRENT_LEFT";
      brief = "Measured Voltage above sensFET current shunt FL-left.";
      detailed = "";
      def = integer (pos 0);
      min = integer (pos 0);
      max = integer (pos 255);
    }
    ∷ record {
      name = "MVMT_MOTOR_FL_CURRENT_RIGHT";
      brief = "Measured Voltage above sensFET current shunt FL-right.";
      detailed = "";
      def = integer (pos 0);
      min = integer (pos 0);
      max = integer (pos 255);
    }
    ∷ record {
      name = "MVMT_MOTOR_FR_CURRENT_LEFT";
      brief = "Measured Voltage above sensFET current shunt FR-left.";
      detailed = "";
      def = integer (pos 0);
      min = integer (pos 0);
      max = integer (pos 255);
    }
    ∷ record {
      name = "MVMT_MOTOR_FR_CURRENT_RIGHT";
      brief = "Measured Voltage above sensFET current shunt FR-right.";
      detailed = "";
      def = integer (pos 0);
      min = integer (pos 0);
      max = integer (pos 255);
    }
    ∷ record {
      name = "MVMT_MOTOR_RL_CURRENT_LEFT";
      brief = "Measured Voltage above sensFET current shunt RL-left.";
      detailed = "";
      def = integer (pos 0);
      min = integer (pos 0);
      max = integer (pos 255);
    }
    ∷ record {
      name = "MVMT_MOTOR_RL_CURRENT_RIGHT";
      brief = "Measured Voltage above sensFET current shunt RL-right.";
      detailed = "";
      def = integer (pos 0);
      min = integer (pos 0);
      max = integer (pos 255);
    }
    ∷ record {
      name = "MVMT_MOTOR_RR_CURRENT_LEFT";
      brief = "Measured Voltage above sensFET current shunt RR-left.";
      detailed = "";
      def = integer (pos 0);
      min = integer (pos 0);
      max = integer (pos 255);
    }
    ∷ record {
      name = "MVMT_MOTOR_RR_CURRENT_RIGHT";
      brief = "Measured Voltage above sensFET current shunt RR-right.";
      detailed = "";
      def = integer (pos 0);
      min = integer (pos 0);
      max = integer (pos 255);
    }
    ∷ record {
      name = "MVMT_SERVO_FL_POSITION";
      brief = "PWM command for Servo control";
      detailed =
          "Value zero corresponds to 1ms of pulse width, moving servo to position 0°, whereas a value of 255 moves to servo maximum angle.";
      def = integer (pos 128);
      min = integer (pos 0);
      max = integer (pos 255);
    }
    ∷ record {
      name = "MVMT_SERVO_FR_POSITION";
      brief = "PWM command for Servo control";
      detailed =
          "Value zero corresponds to 1ms of pulse width, moving servo to position 0°, whereas a value of 255 moves to servo maximum angle.";
      def = integer (pos 128);
      min = integer (pos 0);
      max = integer (pos 255);
    }
    ∷ record {
      name = "MVMT_SERVO_RL_POSITION";
      brief = "PWM command for Servo control";
      detailed =
          "Value zero corresponds to 1ms of pulse width, moving servo to position 0°, whereas a value of 255 moves to servo maximum angle.";
      def = integer (pos 128);
      min = integer (pos 0);
      max = integer (pos 255);
    }
    ∷ record {
      name = "MVMT_SERVO_RR_POSITION";
      brief = "PWM command for Servo control";
      detailed =
          "Value zero corresponds to 1ms of pulse width, moving servo to position 0°, whereas a value of 255 moves to servo maximum angle.";
      def = integer (pos 128);
      min = integer (pos 0);
      max = integer (pos 255);
    }
    ∷ record {
      name = "REGULATION_KERNEL_FREQUENCY";
      brief = "Frequency of the Regulation Kernel in Hz.";
      detailed =
          "The frequency determines, how often the main loop in the regulation kernel is run through in one second. Higher frequencies generally mean higher accuracy but also higher system load.";
      def = integer (pos 60);
      min = integer (pos 0);
      max = integer (pos 255);
    }
    ∷ record {
      name = "MVMT_SERVO_MAX_DELTA";
      brief = "Maximal change for servo position in one timestep.";
      detailed = "";
      def = integer (pos 5);
      min = integer (pos 1);
      max = integer (pos 30);
    }
    ∷ record {
      name = "MVMT_SERVO_MAX_VELOCITY";
      brief = "Maximal speed of servo position change.";
      detailed = "";
      def = integer (pos 20);
      min = integer (pos 1);
      max = integer (pos 50);
    }
    ∷ record {
      name = "SENS_LIGHT_1";
      brief = "Light sensor 1 reading.";
      detailed = "";
      def = integer (pos 0);
      min = integer (pos 0);
      max = integer (pos 255);
    }
    ∷ []

-- `Uint16Detail`.
abbrev pub uint16_detail : List EntryDetail
uint16_detail =
    record {
      name = "EEC_MOTORCURRENT_TO_SHUNTVOLTAGE_CALIBRATION_FL";
      brief = "Ratio current through main Highside-FET to ADC-Voltage";
      detailed = "This is a constant value, yet it has to be calibrated at first startup";
      def = integer (pos 138);
      min = integer (pos 0);
      max = integer (pos 65535);
    }
    ∷ record {
      name = "EEC_MOTORCURRENT_TO_SHUNTVOLTAGE_CALIBRATION_FR";
      brief = "Ratio current through main Highside-FET to ADC-Voltage";
      detailed = "This is a constant value, yet it has to be calibrated at first startup";
      def = integer (pos 138);
      min = integer (pos 0);
      max = integer (pos 65535);
    }
    ∷ record {
      name = "EEC_MOTORCURRENT_TO_SHUNTVOLTAGE_CALIBRATION_RL";
      brief = "Ratio current through main Highside-FET to ADC-Voltage";
      detailed = "This is a constant value, yet it has to be calibrated at first startup";
      def = integer (pos 138);
      min = integer (pos 0);
      max = integer (pos 65535);
    }
    ∷ record {
      name = "EEC_MOTORCURRENT_TO_SHUNTVOLTAGE_CALIBRATION_RR";
      brief = "Ratio current through main Highside-FET to ADC-Voltage";
      detailed = "This is a constant value, yet it has to be calibrated at first startup";
      def = integer (pos 138);
      min = integer (pos 0);
      max = integer (pos 65535);
    }
    ∷ record {
      name = "EEC_MOTORCURRENT_TO_SHUNTVOLTAGE_CALIBRATION_FL_AUX";
      brief = "Ratio current through auxiliary Highside-FET to ADC-Voltage";
      detailed =
          "This is a constant value, yet it has to be calibrated at first startup. There may not be a butterworth filtering element";
      def = integer (pos 138);
      min = integer (pos 0);
      max = integer (pos 65535);
    }
    ∷ record {
      name = "EEC_MOTORCURRENT_TO_SHUNTVOLTAGE_CALIBRATION_FR_AUX";
      brief = "Ratio current through auxiliary Highside-FET to ADC-Voltage";
      detailed =
          "This is a constant value, yet it has to be calibrated at first startup. There may not be a butterworth filtering element";
      def = integer (pos 138);
      min = integer (pos 0);
      max = integer (pos 65535);
    }
    ∷ record {
      name = "EEC_MOTORCURRENT_TO_SHUNTVOLTAGE_CALIBRATION_RL_AUX";
      brief = "Ratio current through auxiliary Highside-FET to ADC-Voltage";
      detailed =
          "This is a constant value, yet it has to be calibrated at first startup. There may not be a butterworth filtering element";
      def = integer (pos 138);
      min = integer (pos 0);
      max = integer (pos 65535);
    }
    ∷ record {
      name = "EEC_MOTORCURRENT_TO_SHUNTVOLTAGE_CALIBRATION_RR_AUX";
      brief = "Ratio current through auxiliary Highside-FET to ADC-Voltage";
      detailed =
          "This is a constant value, yet it has to be calibrated at first startup. There may not be a butterworth filtering element";
      def = integer (pos 138);
      min = integer (pos 0);
      max = integer (pos 65535);
    }
    ∷ []

-- `Uint32Detail`.
abbrev pub uint32_detail : List EntryDetail
uint32_detail = []

-- `Uint64Detail`.
abbrev pub uint64_detail : List EntryDetail
uint64_detail = []
