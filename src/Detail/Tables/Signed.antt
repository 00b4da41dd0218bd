-- ===== src/Detail/Tables/Signed.antt =====
-- RRegistry/include/RRegistry/Detail.hpp: the tables of the signed integers.
-- Adjacent C++ literals are joined.
use rbase.Base.{List, [], ◌∷◌}
use rbase.Base.Int.{pos, negsuc}
use rbase.Value.{integer}
use rbase.Detail.Entry.{EntryDetail}

-- `Int8Detail`.
abbrev pub int8_detail : List EntryDetail
int8_detail = []

-- `Int16Detail`.
abbrev pub int16_detail : List EntryDetail
int16_detail =
    record {
      name = "MVMT_STEER_DIRECTION";
      brief = "Direct steering direction.";
      detailed = "";
      def = integer (pos 0);
      min = integer (negsuc 32766);
      max = integer (pos 32767);
    }
    ∷ record {
      name = "MVMT_FORWARD_VELOCITY";
      brief = "Direct movement velocity.";
      detailed = "";
      def = integer (pos 0);
      min = integer (negsuc 32766);
      max = integer (pos 32767);
    }
    ∷ record {
      name = "MVMT_MOTOR_PWM_FL";
      brief = "Feedback value of RBreakout";
      detailed =
          "This gives the operator a detailed feedback about the arduino-calculated desired march speed. Note: A value of -255 does NOT correspond with a pwm-value of 255, as the signal levels in reverse-direction-mode have to be reversed as the other side of the complementary halfbridge is now conducting.";
      def = integer (pos 0);
      min = integer (negsuc 254);
      max = integer (pos 255);
    }
    ∷ record {
      name = "MVMT_MOTOR_PWM_FR";
      brief = "Feedback value of RBreakout";
      detailed =
          "This gives the operator a detailed feedback about the arduino-calculated desired march speed. Note: A value of -255 does NOT correspond with a pwm-value of 255, as the signal levels in reverse-direction-mode have to be reversed as the other side of the complementary halfbridge is now conducting.";
      def = integer (pos 0);
      min = integer (negsuc 254);
      max = integer (pos 255);
    }
    ∷ record {
      name = "MVMT_MOTOR_PWM_RL";
      brief = "Feedback value of RBreakout";
      detailed =
          "This gives the operator a detailed feedback about the arduino-calculated desired march speed. Note: A value of -255 does NOT correspond with a pwm-value of 255, as the signal levels in reverse-direction-mode have to be reversed as the other side of the complementary halfbridge is now conducting.";
      def = integer (pos 0);
      min = integer (negsuc 254);
      max = integer (pos 255);
    }
    ∷ record {
      name = "MVMT_MOTOR_PWM_RR";
      brief = "Feedback value of RBreakout";
      detailed =
          "This gives the operator a detailed feedback about the arduino-calculated desired march speed. Note: A value of -255 does NOT correspond with a pwm-value of 255, as the signal levels in reverse-direction-mode have to be reversed as the other side of the complementary halfbridge is now conducting.";
      def = integer (pos 0);
      min = integer (negsuc 254);
      max = integer (pos 255);
    }
    ∷ record {
      name = "MVMT_SERVO_OUTPUT_PWM_FL";
      brief = "Real PWM output of the servo routines.";
      detailed = "";
      def = integer (pos 0);
      min = integer (negsuc 549);
      max = integer (pos 550);
    }
    ∷ record {
      name = "MVMT_SERVO_OUTPUT_PWM_FR";
      brief = "Real PWM output of the servo routines.";
      detailed = "";
      def = integer (pos 0);
      min = integer (negsuc 549);
      max = integer (pos 550);
    }
    ∷ record {
      name = "MVMT_SERVO_OUTPUT_PWM_RL";
      brief = "Real PWM output of the servo routines.";
      detailed = "";
      def = integer (pos 0);
      min = integer (negsuc 549);
      max = integer (pos 550);
    }
    ∷ record {
      name = "MVMT_SERVO_OUTPUT_PWM_RR";
      brief = "Real PWM output of the servo routines.";
      detailed = "";
      def = integer (pos 0);
      min = integer (negsuc 549);
      max = integer (pos 550);
    }
    ∷ []

-- `Int32Detail`.
abbrev pub int32_detail : List EntryDetail
int32_detail =
    record {
      name = "GEOM_DISTANCE_ANGLE_POINT_CENTER_FL_X";
      brief = "Position of Servo, (top) X-Component";
      detailed =
          "Distance between rover center and servo drive side axis in flat view and in main moving direction, unit mm.";
      def = integer (pos 350);
      min = integer (pos 1);
      max = integer (pos 5000);
    }
    ∷ record {
      name = "GEOM_DISTANCE_ANGLE_POINT_CENTER_FL_Y";
      brief = "Position of Servo, (top) Y-Component";
      detailed =
          "Distance between rover center and servo drive side axis in flat view and +90° to main moving direction, unit mm.";
      def = integer (pos 300);
      min = integer (pos 1);
      max = integer (pos 5000);
    }
    ∷ record {
      name = "GEOM_DISTANCE_ANGLE_POINT_CENTER_FR_X";
      brief = "Position of Servo, (top) X-Component";
      detailed =
          "Distance between rover center and servo drive side axis in flat view and in main moving direction, unit mm.";
      def = integer (pos 350);
      min = integer (pos 1);
      max = integer (pos 5000);
    }
    ∷ record {
      name = "GEOM_DISTANCE_ANGLE_POINT_CENTER_FR_Y";
      brief = "Position of Servo, (top) Y-Component";
      detailed =
          "Distance between rover center and servo drive side axis in flat view and +90° to main moving direction, unit mm.";
      def = integer (pos 300);
      min = integer (pos 1);
      max = integer (pos 5000);
    }
    ∷ record {
      name = "GEOM_DISTANCE_ANGLE_POINT_CENTER_RL_X";
      brief = "Position of Servo, (top) X-Component";
      detailed =
          "Distance between rover center and servo drive side axis in flat view and in main moving direction, unit mm.";
      def = integer (pos 350);
      min = integer (pos 1);
      max = integer (pos 5000);
    }
    ∷ record {
      name = "GEOM_DISTANCE_ANGLE_POINT_CENTER_RL_Y";
      brief = "Position of Servo, (top) Y-Component";
      detailed =
          "Distance between rover center and servo drive side axis in flat view and +90° to main moving direction, unit mm.";
      def = integer (pos 300);
      min = integer (pos 1);
      max = integer (pos 5000);
    }
    ∷ record {
      name = "GEOM_DISTANCE_ANGLE_POINT_CENTER_RR_X";
      brief = "Position of Servo, (top) X-Component";
      detailed =
          "Distance between rover center and servo drive side axis in flat view and in main moving direction, unit mm.";
      def = integer (pos 350);
      min = integer (pos 1);
      max = integer (pos 5000);
    }
    ∷ record {
      name = "GEOM_DISTANCE_ANGLE_POINT_CENTER_RR_Y";
      brief = "Position of Servo, (top) Y-Component";
      detailed =
          "Distance between rover center and servo drive side axis in flat view and +90° to main moving direction, unit mm.";
      def = integer (pos 300);
      min = integer (pos 1);
      max = integer (pos 5000);
    }
    ∷ []

-- `Int64Detail`.
abbrev pub int64_detail : List EntryDetail
int64_detail = []
